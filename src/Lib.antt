-- ===== src/Lib.antt =====
-- A verification library for the firmware of an ESP32-S3 weather station, which samples
-- temperature, humidity and air pressure from sensors on an I2C bus, analyses their trend and
-- tendency, and publishes them over MQTT.
--
-- The program's parts. The tasks of src/main.c wait for their turn on time-into-interval handles
-- (components/esp_time_into_interval), read the sensors through the drivers (components/bmp280,
-- components/ahtxx) over the transfers of components/esp_driver_i2c_ext, give each sample to a
-- trend (components/esp_scalar_trend) and the pressure to a tendency
-- (components/esp_pressure_tendency), and send what results over the connections of
-- src/mqtt_connect.c and src/network_connect.c.
--
-- What models what:
--   Interval   components/esp_time_into_interval/time_into_interval.c: Normalize has the units,
--              Event the computation of the next event, Handle the operations on a handle; Advance,
--              Schedule, Lifecycle, Wake, Pace (waits one after the other) and Locks (the mutex)
--              have the theorems.
--   Window     the array of samples of scalar_trend.c and pressure_tendency.c, with its refinement
--              by the list of the last samples in Contents and History.
--   Tendency   components/esp_pressure_tendency/pressure_tendency.c
--   Trend      components/esp_scalar_trend/scalar_trend.c: Critical has the inverse t-distribution,
--              Fit the line of best fit and the test, Handle the operations.
--   I2c        components/esp_driver_i2c_ext/i2c_master_ext.c: Transfer has the reads and writes,
--              Detect the scan, Binary the digits of a word; Action is how a driver's calls run,
--              with a return of an error code and an abort told apart, and Ends, Time,
--              Keeps and Preserves are what is known of a call that is built of such parts; Scan and
--              Memory (words in a device's registers) have the theorems.
--   Bmp280     components/bmp280/bmp280.c and bmp280.h: Registers has the bit fields, Modes
--              the enumerations of the settings, Compensate
--              the formulas of the data sheet, Device the registers' reads and writes, Settings the
--              getters and setters, Measure the measurements, Init the rest; Mirror, RoundTrip,
--              Configure, Poll, Leak and Exact (the formula of the temperature) have the theorems.
--   Ahtxx      components/ahtxx/ahtxx.c and ahtxx.h: Device has the set-up, the status register and
--              the reset, Measure the measurements and the dew point, Init the initialization; Kind
--              and Memory have the theorems.
--   Wifi       src/network_connect.c: the Wi-Fi event handler, whose states Phases describes; Start
--              has the start and the stop of Wi-Fi, Sntp the wait for the time of day, Timezone the
--              time zone; Outcomes says what the start and the stop leave
--   Mqtt       src/mqtt_connect.c: the event handler; Link has the start and the stop of the client,
--              Outcomes says what they leave
--   Station    src/main.c: Sample has the sample objects, Queue the queue as it is used, Tasks the
--              loops of the two tasks one statement at a time, Measure and Cycle the measurements of
--              a round and the pass around them, Message the text that is published, Setup the
--              set-up of the sampling task, System the record that outlives a restart, Heap the
--              watch of the free memory, Main `app_main`. The theorems are in Order, Delivery,
--              Rounds, Progress and Lag (the two tasks), Histories, Cycles and Termination (the
--              measurements), Ready (the set-up), Boots and Started. Operation has the two tasks from
--              the set-up on: Log is what they should publish while the publishing task keeps
--              up with the rounds, and Identity, Passes, Published and Pace show it pass by pass.
--   Nvs        components/esp_nvs_ext/nvs_ext.c: the numbers that are kept as text in the flash
--              storage; RoundTrip and Leak have the theorems.
--   Esp        what is taken from ESP-IDF, FreeRTOS and the C library, as a record of services
--   Float      `float` and `double`, as a record of operations; Nan has the rules for NAN, Whole
--              whole numbers in their place for concrete runs
--   Bmp280/Board, Wifi/Linked, Mqtt/Working   a board, a station and a client that work, for
--              concrete runs; the modules named Examples have the runs
--   Base       shared names: lists, integers and machine words over the native numbers
--
-- State and operations. A function of the source is a function of the same name here. A handle is
-- an option, `none` for a null pointer; an output parameter is a component of the result, which
-- is given what the caller's variable held; the platform is a world that is passed on, with a
-- record of services (`Os`, `Bus`) of which nothing is assumed but the laws that a theorem names.
-- A driver's call is an action on a handle and a world that ends with a value, an error code or an
-- abort (ESP_ERROR_CHECK).
--
-- The tasks. A state of the two tasks of src/main.c has the sample objects, the queue, the
-- statements that are left of the round of the sampling task and the item that the publishing task
-- holds. A step is one statement of the sampling task, one receive, or the rest of a pass of the
-- publishing task; any step may follow any other, and the next round starts when no statement is
-- left. The queue holds names of sample objects, as the pointers of the source do, so a publisher
-- reads an object as it is when it publishes; the samples that are published stand for their
-- messages, whose text Message has, and a failed allocation of the message's buffer is left out.
-- What a failed call has written to a sample before the task overwrites it is not kept. The queue
-- of FreeRTOS is a parameter with its documented laws: it takes an item when there is room,
-- refuses it when there is none, and gives back the oldest. The flash storage, the client of MQTT,
-- the driver of Wi-Fi and the text that `%f` writes are parameters likewise.
--
-- The devices and the flash. Nothing is assumed of what a sensor measures. The theorems on the
-- settings of the BMP280 suppose of its registers what its data sheet says (the record `Sensor`):
-- writes take effect in sleep mode, and a forced measurement ends in sleep mode. A read or a write
-- of the flash may fail; where a theorem needs that they work in a boot, it says so (`Works`).
--
-- Numbers. Words are native numbers with the wrap-around written out; signed ones are integers
-- reduced to their width. On signed overflow, which C leaves undefined, the model wraps around.
--
-- Bounds and fuel. The search for the first event of a schedule has one round of fuel for each
-- milli-second of the clock, which is enough since every round adds at least one. The polling loop
-- of the pressure sensor runs on a parameter: 250000 rounds are enough, since the loop gives up
-- after as many micro-seconds and every round takes at least one. Theorems on times suppose that
-- they are below 2 ^ 61 or 2 ^ 62, as they say.
--
-- Not modelled: components/esp_nvs_ext is another author's component but for its functions on
-- float and double, and its calls in src/main.c are parameters. Log output, the printing of the
-- time and of the time servers and the conversion of the codes of an analysis to text compute
-- nothing that the rest uses. The end of the sampling task after its endless loop is never reached.
-- The queries and screens of the database server are not code of the station.
pub mod Base
pub mod Esp
pub mod Float
pub mod Interval
pub mod Window
pub mod Tendency
pub mod Trend
pub mod I2c
pub mod Bmp280
pub mod Ahtxx
pub mod Wifi
pub mod Mqtt
pub mod Station
pub mod Nvs
