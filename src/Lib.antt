-- ===== src/Lib.antt =====
-- CocoaLumberjack, a logging framework for Apple platforms (Sources/CocoaLumberjack, Objective-C).
--
-- The program. DDLog keeps a table of loggers and a serial logging queue. Log macros make messages, and
-- DDLog hands each one to the queues of those loggers whose level lets it through, and waits for them.
-- DDFileLogger is a logger that writes lines to log files, which it rolls by size and age; its file
-- manager creates and deletes the files; DDBufferedProxy puts a buffer in memory in front of it.
-- DDAbstractDatabaseLogger collects entries and saves and deletes them by timers. Formatters turn a
-- message into the text that a logger writes, or drop it. DDTTYLogger, DDOSLogger and DDASLLogger write to
-- the terminal and to the system's logs, and DDASLLogCapture turns entries of the system's log into
-- messages.
--
-- The files. Each class that a header in include/CocoaLumberjack declares is a record of
-- operations, with laws as a second record where there are any, and is
-- filled by the functions that model the methods.
-- - Base: library names passed on, Boolean tests, lists measured by native numbers.
-- - Log: DDLog.m and include/CocoaLumberjack/DDLog.h. Log/Level has the flags and levels, Log/Registry
--   the table and the `lt_` methods on it, Log/System the queues as a step relation: a call puts a
--   task on the logging queue, the logging queue begins a task when no block of its group waits, and a
--   logger's queue runs its first block. Log/Api is the interface of the class DDLog, with the methods in
--   Log/Api/Instances, where all instances share the static logging queue, and dynamic levels in
--   Log/Api/Dynamic; Log/AbstractLogger is DDAbstractLogger, with its formatter; Log/Macros has the macros of DDLogMacros.h, DDLog+LOGV.h, DDAssertMacros.h and
--   Supporting Files/DDLegacyMacros.h.
-- - FileName: DDExtractFileNameWithoutExtension of DDLog.m, with pointers as offsets and the cast to
--   NSUInteger as a remainder modulo 2 ^ 64, and the file name of a DDLogMessage.
-- - FileManager: DDLogFileManagerDefault of DDFileLogger.m. FileManager/Cleanup is
--   `deleteOldLogFilesWithError:`, FileManager/Creation is `createNewLogFileWithError:` with the names, and
--   FileManager/Sorting the list of log files, newest first. FileManager/Manager is the interface of
--   include/CocoaLumberjack/DDFileLogger.h with the lists of files and the limits, and FileManager/FileInfo
--   is DDLogFileInfo with its cache and its extended attributes.
-- - FileLogger: DDFileLogger of DDFileLogger.m, as its queue runs it, with the files on disk as a list,
--   newest first; the failures of creating, opening, measuring, writing, marking and deleting files are
--   fields of the surroundings `Env`. A new file replaces one at its path, and dispatches a block that
--   deletes old files; FileLogger/Kept adds up the files and those deleted.
--   FileLogger/Interface has the public methods, and FileLogger/Serializing the serializers, the
--   formatter that a logger has at first, and DDFileLogger+Internal.h.
-- - Buffer: Extensions/DDFileLogger+Buffering.m, in front of any logger that takes data (`Sink`), which
--   the file logger fills in Buffer/Files.
-- - Database: DDAbstractDatabaseLogger.m; the methods of a subclass are recorded as calls. Its
--   properties are in Database/Interface.
-- - Pipeline: a DDFileLogger behind DDLog, which joins Log and FileLogger.
-- - Message: DDLogMessage of DDLog.m, its equality, hash and copies, and its initialisers in
--   Message/Creation.
-- - Formatter: Formatter/Context is Extensions/DDContextFilterLogFormatter.m, Formatter/Filters
--   its classes and their deprecated names, Formatter/Chain Extensions/DDMultiFormatter.m, and
--   Formatter/QueueLabel and Formatter/QueueFormatter Extensions/DDDispatchQueueLogFormatter.m.
-- - TtyLogger: DDTTYLogger.m, its color profiles and the lines that it writes.
-- - SystemLog: DDOSLogger.m, DDASLLogger.m, DDASLLogCapture.m and DDLoggerNames.m.
-- Theorems stand below the definitions or in child modules, and concrete data at which they apply in the
-- modules named Examples.
--
-- Bounds and fuel. Sums of file sizes and differences of pointers wrap at 2 ^ 64. The loop that creates
-- a file and the loop that lists the runtime's classes have no bound in the source; they run on fuel
-- here, with a theorem on how much is enough. Counts of entries and sizes of buffers are not bounded, since they do not reach 2 ^ 64 in memory. Times are
-- whole milliseconds or nanoseconds instead of floating-point seconds, and intervals that switch a
-- timer off are 0.
--
-- Not modelled: the tables of colors of DDTTYLogger.m, the nearest color and the escape sequences,
-- which depend on the terminal, and CLIColor.m; the default directory and the protection of files;
-- archiving by a file's name on the simulator; the time of a captured message; the Swift interface;
-- and the branches for iOS, but for the list of a class's methods, and for systems older than macOS
-- 10.15. The Objective-C runtime, the system's logs, file descriptors, locks between processes, dates as text and the file system
-- itself are outside the source; they appear as parameters or as recorded results. The demos,
-- benchmarks and tests are not part of the library, and the web server in
-- Demos/WebServerIPhone/Vendor is other projects' code.
pub mod Base
pub mod Log
pub mod FileName
pub mod Message
pub mod Formatter
pub mod FileManager
pub mod FileLogger
pub mod Buffer
pub mod Database
pub mod Pipeline
pub mod TtyLogger
pub mod SystemLog
