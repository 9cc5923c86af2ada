-- ===== src/Lib.antt =====
-- The Platform Support Package (PSP) of NASA's core Flight System: the layer between the flight
-- executive and a board with its operating system.
--
-- Parts. fsw/shared has the code of all platforms: the table of memory ranges, the storage of
-- exception records and the table of the linked PSP modules. fsw/modules has the modules: the
-- driver interface (iodriver), through which the executive commands devices such as the system
-- monitor (linux_sysmon), the memory-mapped accesses (ram_direct, port_direct, eeprom_direct), and
-- the time bases. fsw/pc-linux is the platform that is modelled most: its shared memory outlives
-- the program, its start chooses the kind of reset, and its signal handler feeds the exception
-- storage.
--
-- Files and the code that they are about:
--   Status            fsw/inc/cfe_psp_error.h
--   StatusText        fsw/shared/src/cfe_psp_error.c: status_to_string, with snprintf
--   MemRange          fsw/shared/src/cfe_psp_memrange.c: mem_validate_range is
--                     CFE_PSP_MemValidateRange, with its loop in search_table and check_entry;
--                     mem_range_set, mem_range_get and mem_ranges are the functions of those names
--   ExceptionStorage  fsw/shared/src/cfe_psp_exceptionstorage.c, function by function, and
--                     CFE_PSP_ExceptionSigHandler of fsw/pc-linux/src/cfe_psp_exception.c
--                     (sig_handler); CFE_PSP_ExceptionHook of fsw/mcp750-vxworks is in
--                     ExceptionStorage/Boards, and CFE_PSP_ExceptionGetSummary_Impl of
--                     fsw/pc-linux in ExceptionStorage/Reasons; the abstract view is the queue of ExceptionStorage/Queue
--   ModuleTable       fsw/shared/src/cfe_psp_module.c: module_init, get_api_entry, find_by_name
--   IoDriver          fsw/modules/iodriver/src/iodriver.c: get_api, get_mutex, hash_mutex, command,
--                     find_driver; it calls ModuleTable as the code does
--   DirectMemory      the three *_direct modules; mem_read8 is CFE_PSP_MemRead8 and so on, and the
--                     EEPROM writes call the RAM reads, as the code does
--   ReservedMemory    fsw/pc-linux/src/cfe_psp_memory.c: the segments, the critical data store (CDS)
--                     and init_processor_reserved_memory
--   Startup           fsw/pc-linux/src/cfe_psp_start.c and cfe_psp_support.c: command_line, startup
--                     and restart; Startup/Cycles puts runs of the program one after the other
--   Timebase          fsw/modules/timebase_vxworks/cfe_psp_timebase_vxworks.c
--   Sysmon            fsw/modules/linux_sysmon/linux_sysmon.c: update_schedstat, start, stop,
--                     calc_aggregate_cpu; read_cpuuse_line in Sysmon/Text, and dev_cmd with its two
--                     dispatchers in Sysmon/Driver
--   BoardMemory       the reserved memory of fsw/mcp750-vxworks, fsw/pc-rtems and
--                     fsw/shared-freertos: mcp750_setup, rtems_setup and freertos_setup are
--                     CFE_PSP_SetupReservedMemoryMap of their cfe_psp_memory.c
--   BoardCds          the data store and the getters of the same files, on flat memory;
--                     BoardCds/Client has the interface that pc-linux and the boards fill
--   BoardStart        the boards' cfe_psp_start.c and cfe_psp_support.c and their
--                     CFE_PSP_InitProcessorReservedMemory: *_reset is the decision on the reset type,
--                     *_start what follows it, *_restart is CFE_PSP_Restart
--   Watchdog          cfe_psp_watchdog.c of fsw/noelv-freertos, fsw/mpfs-discovery-freertos and
--                     fsw/mcp750-vxworks: noelv_step, mpfs_step and mcp750_step
--   KernelSysmon      fsw/modules/vxworks_sysmon/vxworks_sysmon.c (vx_*) and
--                     fsw/modules/rtems_sysmon/rtems_sysmon.c (rtems_*); the commands that both have
--                     are those of KernelSysmon/Driver; fsw/modules/freertos_sysmon/
--                     freertos_sysmon.c is KernelSysmon/FreeRtos
--   EepromFile        fsw/modules/eeprom_mmap_file/cfe_psp_eeprom_mmap_file.c: setup_eeprom,
--                     eeprom_init, and the writes eeprom_file_write8, 16 and 32
--   Base              what the others share: tests, lists, machine words, masks and shifts
--
-- State is passed on: a function takes the state and returns it beside the status. A C array is a
-- list, with the bounds that the code tests, and an access out of bounds that the code does not
-- test is an outcome `none`. Memory of the direct modules and of the boards is a function from
-- addresses to bytes. Integers are natural numbers with the wrap-around written out; `cpuaddr`,
-- `size_t` and `unsigned long` have 64 bits, and those of the boards the bits of
-- BoardMemory.Machine.
--
-- Sizes. The exception ring has the four entries of the configurations of pc-linux and mcp750; the
-- table of memory ranges has any length; the lock table has seven mutexes and the monitor 128
-- cores. The module ids are those of an OSAL without OS_OBJECT_TYPE_USER. Four loops have fuel: for
-- the reduction of the time base's fraction the numerator plus one turns are enough, since every
-- turn raises the factor or lowers the numerator, and for RTEMS' fraction ten, since each divides a
-- number of 32 bits by ten (cut_fraction_small); the decimal digits have ten, enough for an `int32`
-- (decimal-value), and the hexadecimal ones sixteen, for 64 bits.
--
-- What is taken from outside: OSAL's object ids and look-ups (ExceptionStorage.Osal, with its
-- documented layout in IsOsal, and IoDriver.ObjectIds), OSAL's conversion of nanoseconds, the
-- shared memory of the kernel (a segment is found by its key or created with zeros, and a removed
-- one stays until the program ends; a call that fails ends the program), what open and
-- pthread_create answer (Sysmon.Answers), what the calls for the EEPROM file answer
-- (EepromFile.Answers), pages of 4096 bytes for its mapping, the device functions that the driver
-- interface calls, and the sizes and the defaults of the target configuration.
--
-- Of the boards: the masks of the reset registers and the codes of the hardware layer, `malloc`,
-- the address of sysMemTop, the sizes of the two structures, the value that HLP_vWatchdogEnable
-- returns, the reports of VxWorks' accounting, the run-time counters of FreeRTOS, the threads of
-- RTEMS with the operations on their times (KernelSysmon.Timestamps), and the order of a new task
-- of VxWorks and the call that creates it (KernelSysmon.Creation).
--
-- Not modelled: the text of an exception summary on mcp750, the POSIX and the software time base,
-- the watchdogs that only keep a value, the buffer that splits /proc/schedstat into lines and the
-- pace of the monitor's thread, the concurrency of the signal handler with the reader beyond the
-- order of whole operations, the calls of a board's start before its reset register is read,
-- messages printed, and the functions that only return a constant or call the operating system.
pub mod Base
pub mod Status
pub mod MemRange
pub mod ExceptionStorage
pub mod ModuleTable
pub mod IoDriver
pub mod DirectMemory
pub mod ReservedMemory
pub mod Startup
pub mod Timebase
pub mod Sysmon
pub mod BoardMemory
pub mod BoardCds
pub mod BoardStart
pub mod Watchdog
pub mod KernelSysmon
pub mod EepromFile
pub mod StatusText
