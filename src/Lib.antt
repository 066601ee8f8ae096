-- ===== src/Lib.antt =====
-- The flight services of the ex2 satellite: what the ground asks over CSP, and what the services do
-- with the devices, the file system and the clock.
--
-- A service is a FreeRTOS task that accepts connections, reads packets and hands each to its
-- application, which writes its answer into the packet. The first byte of a packet is the
-- subservice, the second of an answer the status.
--
--   Csp           Services/source/util/service_utilities.c, Services/include/services.h: bytes and
--                 integers in memory, the union conversions, and the packet. `Network` holds the
--                 conversions of libcsp as a parameter with the laws of their documentation.
--   Service       Service.Task is the task loop that time_management_service, updater_service,
--                 dfgm_service, logger_service, communication_service and adcs_service share, over a
--                 list of what csp_accept gives. Service.Start is start_service_server of
--                 Services/source/services.c with the start functions of the services.
--   TimeManagement  Services/source/time_management/time_management_service.c: time_management_app,
--                 and RTC_discipline_service in TimeManagement.Discipline.
--   Housekeeping  Services/source/housekeeping/housekeeping_service.c. `Hk` is the record of its
--                 globals. Timestamps is the heap array and dynamic_timestamp_array_handler; Search
--                 is get_file_id_from_timestamp; Config is exists, store_config and load_config;
--                 Storage is the file of records, with Storage.Posix as what is asked of the file
--                 system; Collect is collect_hk_from_devices; Operations is populate_and_store_hk_data and
--                 set_max_files; Fetch is fetch_historic_hk_and_transmit; App is hk_service_app and
--                 the packets of one connection of housekeeping_service.
--   Communication Services/source/communication/communication_service.c: one function for each case
--                 of communication_service_app, in Sband, Uhf.Set and Uhf.Get.
--   Adcs          Services/source/adcs/adcs_service.c: one function for each of the 108 cases of
--                 adcs_service_app, in groups of the enum of Services/include/adcs/adcs_service.h. A
--                 record holds the driver's calls of each group; `FieldType` is the conversion
--                 between a field's type and uint32_t, which C applies around csp_hton32.
--   Updater       Services/source/updater/updater.c: get_buffer and updater_app. GOLDEN_IMAGE is a
--                 Boolean parameter.
--   Dfgm          Services/source/dfgm/dfgm_service.c: dfgm_service_app.
--   General       Services/source/general.c: general_app and the loop of general_service.
--   Logger        Services/source/logger/logger_service.c: file_exists, get_file and
--                 logger_service_app.
--   Response      Services/source/response/service_response.c: queue_response, and a round of
--                 service_response_task; Response.Laws has their interleavings as lists of steps.
--   Cli           Services/source/cli/cli.c: the commands echo, time and hello; App is cli_app and what
--                 cli_service does with a packet; Files is Services/source/cli/fs_utils.c.
--   Base          names of the library, tests on numbers and lists; Examples: runs.
--
-- What lies outside the repository is a parameter over a world `W`: the drivers, the clock, the
-- file system, libcsp's sockets and buffers, the heap (an allocation gives nothing, or a block of
-- any contents) and the layout of the drivers' structs. A byte is a number below 256, an integer of
-- w bits a number below 2 ^ w with `% 2 ^ w` written out, a negative status its byte.
--
-- A use of freed memory, a second free, an access outside an array and an access through NULL are
-- values of `Run` in place of undefined behaviour. The search loop runs on fuel of one round more
-- than there are items, the delay loop on any fuel above the missing ticks, the loop of cli_app on
-- more fuel than the interpreter has calls left, around echo two more than there are parameters and
-- around ls one more than there are entries; that this is enough is proved. C leaves the
-- order of the operands of `+` open where drivers are called in a sum; the model evaluates them from
-- left to right, and no theorem rests on that order. A packet's data are a memory without an end. An
-- answer of Communication that goes past csp_buffer_data_size() is an access outside an array
-- (Communication.Answer.within); the other services leave what they copy too far in the packet, and
-- only the report of their size check tells of it.
--
-- Not modelled: the demo program, mock_everyone, and what is only logged or printed.
pub mod Base
pub mod Adcs
pub mod Csp
pub mod Response
pub mod Service
pub mod TimeManagement
pub mod Housekeeping
pub mod Communication
pub mod Updater
pub mod Dfgm
pub mod General
pub mod Logger
pub mod Cli
pub mod Examples
