-- ===== src/Lib.antt =====
-- The head-rest and flight software: the program `chicken` and the sketch of its sensor board.
--
-- A sensor board (arduino/hr/hr.ino) drives a head rest between two limit switches and sends its
-- position and two distances in packets over a serial line. The program on the main computer decodes
-- them (chicken/utils/sa_modem.cpp, chicken/device/driver/hr_driver.cpp), shows the distances through a
-- web socket (chicken/device/driver/io/websocket_handler.cpp) and sends the commands that it gets from there
-- back to the board (chicken/chicken.cpp). The same program has a flight side: a status controller
-- hands over between navigators (chicken/status_controller.cpp, chicken/navigator/), the attitude navigator sets
-- the targets of the attitude controller (chicken/attitude_controller.cpp), which runs three PIDs
-- (chicken/utils/pid.cpp) and writes servo signals (chicken/device/driver/serial_servo_driver.cpp).
--
-- Which file models which part:
--   Base        shared names, Boolean tests, lists, integers and bit operations
--   Modem       `SaModem` of chicken/utils/sa_modem.cpp: `demodulate_byte` is `demodulateByte`, and `read_check`,
--               `read_size`, `read_payload` and `read_crc` are the cases 1 to 4 of its switch
--   HrDriver    `HrDriver` of chicken/device/driver/hr_driver.cpp: `read_data` is `readData` over the
--               bytes of one `recv`, `read_chunks` the reading thread
--   Firmware    `setup`, `loop`, `moveHrUp` and `moveHrDown` of arduino/hr/hr.ino; Firmware/Coils what the
--               pins of the motor go through in any rounds of `loop`; Firmware/Older the
--               `loop` of test/arduino/stepper_motor/stepper_motor.ino
--   Infrared    `setup` and `loop` of arduino/ir/ir.ino
--   Serial      `SerialHandler` of chicken/device/driver/io/serial_handler.cpp
--   Link        board and driver together, over a line that loses no byte
--   Headrest    the loop of `setupDeviceForFaurecia` in chicken/chicken.cpp, with `sendDistance` of
--               chicken/device/hr_display.cpp, and its steps beside the two threads; Headrest/Objects the
--               same loop through `Hr` and `HrDisplay`, whose pointers may be NULL
--   Race        the members of `HrDriver` that the reading thread and the loop of `setupDeviceForFaurecia`
--               share, access by access
--   Inbox       the array and the mark of `WsHandler` that its daemon and that loop share, byte by byte
--   Outbox      the array that `sendText` fills and the callback writes from, byte by byte
--   Websocket   `WsHandler`, its callbacks, its daemon and the table of handlers in
--               chicken/device/driver/io/websocket_handler.cpp
--   Flight      `setupController` of chicken/chicken.cpp: the status controller, the navigators, the attitude
--               controller and the servo driver with one thread each, `ManullyNavigator` of
--               chicken/navigator/manully_navigator.cpp among them
--   Cockpit     Flight with the instruments of `setupDevice`: the radio, `ADI` and the sensors' `Imu`
--   Handover    the threads of the attitude controller and the manual navigator, access by access
--   Status      `StatusController`, and `INavigator` of chicken/navigator/i_navigator.cpp
--   Attitude    `AttitudeController`, and `AttitudeNavigator` of chicken/navigator/attitude_navigator.cpp
--   Pid, Util   chicken/utils/pid.cpp and chicken/utils/util.cpp
--   Interval    `IIntervalThread` of chicken/utils/i_interval_thread.cpp: `start` and the loop
--   Imu         `VirtualImu` of chicken/device/virtual_imu.cpp and `ADI` of chicken/instruments/adi.cpp
--   Servo       `SerialServoDriver`, to which chicken/device/servo_controller.cpp passes on; Servo/Threads has
--               its two threads and its destructor, in steps that follow each other in any order
--   Devices     chicken/device_manager.cpp, and `setupDevice` of chicken/chicken.cpp
--   Io          chicken/device/driver/io/io.cpp: the handlers of the ports
--   Channels    chicken/utils/mavlink_wtf.cpp, and Filters the three filters of chicken/utils
--   Iic         `IicHandler` of chicken/device/driver/io/iic_handler.cpp; `select_device` is the call of
--               `ioctl` that its operations begin with, whose result they drop
--   Bmx055      `Bmx055Driver` of chicken/device/driver/bmx055_driver.cpp: `read_gyro`, `read_acc` and
--               `read_mag` are its three reads, over the answers of the bus to each call
--   Fusion      `Imu` of chicken/device/imu.cpp: `update` is `update`; Fusion/Vectors has its computations on
--               vectors, `turned` being the body that `iterateGyroAttitude` and `iterateGyroMagnet` share
--   Ads7828     chicken/device/driver/ads7828_driver.cpp, with chicken/device/aoa.cpp and chicken/device/agl.cpp
--   Radio       `Radio` of chicken/device/radio.cpp: `fetch_data` is `fetchData`
--   Beeper      chicken/device/driver/io/gpio_handler.cpp, chicken/device/driver/beeper_driver.cpp and
--               chicken/device/beeper.cpp
--   Float       the `double` of C, a parameter of all that computes with it
--
-- State is a record with the fields of the class, and an operation is a function from the state to
-- the new state and the result. Inputs from outside are arguments: bytes, clock readings, switch
-- readings, answers of the bus, and for libwebsockets the callbacks that a call makes and its result.
-- Output is collected in the state, or is a list of effects. MAVLink is a record of the functions
-- used, and so is `double`, of which no law is taken for granted that rounding breaks.
--
-- An `unsigned long` has 32 bits on the main computer and an `int` 16 bits on the board; both wrap. A
-- `char` of a message is its code. Reads of a list outside its bounds give a stated default, which the
-- theorems on valid states never reach; a write outside the table of handlers is `none`.
--
-- Threads are steps that come in any order; a round of one of them is taken to be atomic, though the
-- code takes no lock, but in Race, Inbox, Outbox, Handover and Servo/Threads, where each access of the
-- shared members is a step, of a text each byte that is copied and each comparison; in Servo/Threads a
-- step is a test, a call, a reading of the clock, or an assignment or a join of the destructor.
--
-- Loops over buffers are recursion on the rounds left, loops over input on the input. Homing reads the
-- switch until it is pressed: the list of readings bounds it, and it gives `none` exactly while none
-- of the readings that its loop makes finds the switch pressed. `decimal` has one digit more than
-- the number's value to go, which is never too few. The daemon and the threads run
-- over given lists of rounds. A loop that reads a port until it gives nothing runs over the list of
-- what the port gives; an interval thread waits over the list of its clock readings, and the theorem on it
-- says which readings let it go on.
--
-- Not modelled: the configuration file, which libconfig reads, printing, memory management, the
-- operating system calls behind the ports, the demonstration under arduino/ir/IRrecvDemo, the server in
-- JavaScript, and the copies of other projects' libraries (MAVLink, libconfig, libwebsockets,
-- IRremote, the GPIO manager), of which only what the code relies on is an argument.
pub mod Base
pub mod Float
pub mod Util
pub mod Pid
pub mod Modem
pub mod HrDriver
pub mod Firmware
pub mod Link
pub mod Websocket
pub mod Headrest
pub mod Imu
pub mod Servo
pub mod Attitude
pub mod Status
pub mod Devices
pub mod Iic
pub mod Ads7828
pub mod Beeper
pub mod Bmx055
pub mod Channels
pub mod Cockpit
pub mod Filters
pub mod Flight
pub mod Fusion
pub mod Handover
pub mod Inbox
pub mod Infrared
pub mod Interval
pub mod Io
pub mod Outbox
pub mod Race
pub mod Radio
pub mod Serial
