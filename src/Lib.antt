-- ===== src/Lib.antt =====
-- A model of parts of BloCxx, a C++ library for systems programming, version 2.3.0, with theorems
-- about its text conversions, its times, its log patterns, its thread pools, queues and locks,
-- its sorted maps, its binary serialisation, its environments, its identifiers and its command
-- lines. Paths below are under blocxx-2.3.0/src/blocxx/.
--
-- The parts and their files:
--
-- Prelude and its children hold what the parts share: the library's names, Boolean tests on
-- numbers, lists measured by native numbers, integers (ℤ) with laws that the arithmetic tactics
-- read, division, and shifts and masks of machine words.
--
-- Utf8 models UTF8Utils.cpp.
--   Utf8.Table     SequenceLengthTable, and what it answers for each byte
--   Utf8.Codec     UTF8toUCS4, UCS4toUTF8, UTF8toUCS2, UCS2toUTF8, UTF8CharLen
--   Utf8.Text      charCount, and encoded texts: characters one after the other
--   Utf8.Ucs2      StringToUCS2Common and its two entries, UCS2ToString
--   Utf8.Case      lowerMappings and upperMappings (Case.Lower, Case.Upper, a file for each 128
--                  entries), Transformer with its std::lower_bound (Case.Defs, Case.Lookup),
--                  toUpperCase, toLowerCase and their in-place forms (Case.Transform)
-- The children Fields, RoundTrip, Laws, Lookup, Copy, Write, Texts and Safety hold proofs. The
-- conversions of Ucs2 and Case call the codec for each character, as the source does.
--
-- Time models DivRem.hpp (Time.DivRem), TimeDuration.cpp with the inline functions of
-- TimeDuration.hpp (Time.Duration) and normTm of TmUtils.cpp (Time.Tm), which call the former.
-- Time.DateTime models the values and the arithmetic of DateTime.cpp over Duration, its child
-- Setters the setters with timeGm of TmUtils.cpp over Tm; Invariant and Laws hold proofs. Text
-- models tokenize of String.cpp and the CIM format, FreeForm the other texts, both of the
-- constructor from a text; Tokens and their Laws hold proofs. Time.Calendar models the names of
-- days, months and zones in DateTime.cpp and the shift of a time by its zone; Shift and Laws hold
-- proofs. Time.Period models TimePeriod.cpp over DateTime.
--
-- ThreadPool models ThreadPool.cpp: Defs has the state and what a thread does while it holds
-- m_queueLock, Steps the threads as events in any order. History, Closing, Wakeups and Stranded
-- hold proofs.
--
-- RwLock models GenericRWLockImpl.hpp, the lock behind RWLocker.hpp: Defs has the state and the
-- calls, Events the waits that end and the threads as events; Tally sums over threads, Counts and
-- Kept what the counters count, Guarded what keeps readers out. Exclusion and
-- Reopening hold the theorems.
--
-- MtQueue models MTQueue.hpp and MTQueue.cpp: Defs has the state and the threads as events, History
-- and Wakeups hold proofs.
--
-- Containers.SortedVectorMap models SortedVectorMap.hpp, over the order of its keys as an interface
-- (Containers.Ordering). Lookup and Counts hold what each operation does to each look-up,
-- Refinement the map as a function from keys to values.
--
-- Serialization.Stream models the bytes, signatures and lengths of BinarySerialization.cpp,
-- Serialization.Values the readers and writers of BinarySerialization.hpp with readObject and
-- writeObject of String.cpp and Bool.cpp. Sizes and Progress hold lemmas, RoundTrip, Enumeration
-- and Buffers the theorems.
--
-- LogPattern models LogMessagePatternFormatter.cpp: Converters the classes of converters and
-- formatMessage, Options what stands in braces and finalizeConverter's choice, Parser the states
-- and the loop of Parser::parse. Pieces, Fields, RoundTrip, Moves, Ends and Laws hold proofs.
--
-- CmdLine models CmdLineParser.cpp.
--   CmdLine.Options  the options, verifyOptionValidity, addOption, addOptionWithID, getOptionID
--   CmdLine.Parse    splitArgument, parseCmdLine, and getOptionValue, getOptionValueList,
--                    mustGetOptionValueList, isSet; what is parsed is a SortedVectorMap
--   CmdLine.Usage    getUsage
-- The children Names, Known, RoundTrip, Wrapping and Widths hold proofs.
--
-- EnvVars models EnvVars.cpp: the operations, Sound what holds after any of them, RoundTrip the
-- array that is made and read again.
--
-- Uuid models UUID.cpp: Text the conversions to and from text, Generator the static variables and
-- the constructor that makes an identifier.
--
-- How the code is represented:
--
-- A byte is a number below 256; bit operations on bytes and code points are written with the
-- library's operations on numbers, with the casts to bytes as remainders. A C string is the list
-- of its bytes from the pointer on, less the terminating NUL: a read at its end gives 0, and a
-- pointer moved by n is `drop n`. StringToUCS2Common can move past the NUL; a result of its own,
-- `overrun`, stands for that, since what is read there is not defined. A loop runs on fuel, the
-- length of the string and one more, which is enough as each round moves on by at least a byte; a
-- result of its own stands for fuel that is used up. transformInPlace writes the array that it
-- reads, so its model takes the whole array, its NUL included, with the two positions as numbers.
--
-- The case tables are the source's, entry by entry. std::lower_bound is given by what the C++
-- standard says of it on a range in order: the first entry not below the key.
--
-- A duration is a count of microseconds as an integer, or one of the special values; the source
-- has 64 bits and no test for overflow, so the theorems are about durations for which nothing
-- overflows. Division of integers that truncates, as C++ does, is written out. The fields of a
-- broken-down time are integers too. The two loops of normTm over the months run on fuel: the
-- day, or what it lies below the first and two more, as each round moves it by at least 28.
--
-- A pool counts its threads by the place in the code where they are, and the callers of addWork
-- and waitForEmptyQueue likewise. One event is one stretch of code under the lock, a wake-up, or a
-- wait that times out; a wait may end without a notification, as POSIX allows. `run` takes any
-- list of events, and an event for which no thread is in place does nothing, so the lists are all
-- the interleavings. Since callers are counted, a woken caller may go on with any work: the
-- model has more runs than the code. The lists `accepted` and `taken` are a history
-- that the code does not keep. m_workingThreads wraps at 64 bits as size_t does.
--
-- The ids of a read and write lock are the positions of its threads in a list, and an entry of the
-- map stands with its thread. A thread makes one call at a time; an event is a call up to its end
-- or its wait, the next test of a loop, a wake-up, or a wait that times out. The counters are
-- unsigned numbers of 32 bits; the theorems are about runs short enough that none wraps. Assertions
-- throw, as they do when BLOCXX_DEBUG is defined. notifyOne wakes a thread that the event names,
-- or none: the model has more runs than the code.
--
-- The queue of MtQueue counts its threads like a pool. Pushers and poppers wait on one condition;
-- an event tells by a flag which kind notifyOne wakes where both are asleep. The lists `pushed`
-- and `popped` are a history that the code does not keep.
--
-- A sorted map is the list of its entries, and an iterator the entries before it and those from it
-- on. lower_bound and binary_search of the standard library are given by what the C++ standard says
-- of them. The copies that COWReference saves are not seen.
--
-- A stream that is read is the list of the bytes left in it, and a read asks for all of them or
-- throws. readEnum runs on fuel, the length of the stream and one more; a result of its own stands
-- for fuel that is used up, another for a store past the end of a buffer. A number in network order
-- has its highest byte first, on each machine. A text has 2 ^ 32 bytes at most where its length is
-- written as it is.
--
-- Texts of command lines are lists of characters other than NUL. The comparison of texts that
-- ignores case and the `toupper` of the C library are parameters, in the record Settings. An
-- exception is a value beside the state it leaves; its text is left out. The two forms of addOption
-- and of addOptionWithID differ in the members that they give to the option, which is an argument
-- here. Ids are integers, with no lowest one. A loop of getUsage runs on fuel, one turn for each
-- character and 29 for each end of line of the text to wrap.
--
-- The map of EnvVars, a std::map, has the operations of a sorted map over the order of texts. The
-- array that getenvp makes is a value that is kept or deleted; its memory is not seen.
--
-- The clock readings and the random bytes of an identifier are arguments. `from_string` gives none
-- where the code throws.
--
-- The parser of log patterns keeps what is left of the pattern instead of the index; its loop
-- runs on fuel, one turn for each character. A pattern has no NUL. strtol, the conversion of a
-- text to a UInt32 and the comparison that ignores case are parameters, in the record Services;
-- numbers as text, strftime, the clock and the ids of thread and process in the record Context. A
-- width that an `int` cannot hold is undefined in C++ and a result of its own. A converter gives
-- the text that it appends; the lengths of these texts are below 2 ^ 31.
--
-- A date is its two members as integers. What configure sets as limits is in the record Limits;
-- mktime, gmtime_r and localtime_r are in the record Clock; the conversion of a text to an Int32
-- is an argument. None stands for a DateTimeException. The sums of seconds are not cut to 64
-- bits: a sum that wraps around is out of the limits either way. Offsets of zones are hours, with
-- the local zone as a case of its own.
--
-- What is not modelled: of UTF8Utils.hpp the comparison that ignores case, a generated state
-- machine in a file of its own; of TimeDuration the conversions from and to floating point and
-- text; of DateTime printing and the reading of the clock; of
-- LogMessagePatternFormatter the texts of errors; of ThreadPool the start of a thread that fails,
-- cancellation, the joins at the end of a shutdown, exceptions of the work, the refusal of null
-- work, the destructors and logging; of SortedVectorMap ranges and the comparison of maps; of
-- BinarySerialization signed numbers and writes that fail; of CmdLineParser the arrays of Option
-- and the list of ids; of UUID.cpp the comparisons and the lock. The rest of the library (most of
-- strings, appenders of logs, processes, files, sockets) is not modelled; the wrappers of system
-- calls and of other libraries have no logic to model.
pub mod CmdLine
pub mod Containers
pub mod EnvVars
pub mod LogPattern
pub mod MtQueue
pub mod Prelude
pub mod RwLock
pub mod Serialization
pub mod ThreadPool
pub mod Time
pub mod Utf8
pub mod Uuid
