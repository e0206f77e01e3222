-- ===== src/Lib.antt =====
-- A verification of the programs under example/iperf-bats, the speed test and the file transfer over
-- the BATS protocol library, and of the small client and servers under example/simple.
--
-- An IperfBatsApi (iperf_bats_api.cc) reads the command line and runs tests from its table. A speed
-- test (class IperfTest) has a control channel, over which the two sides exchange the parameters,
-- acknowledgements and the summaries of the reports, and some data streams (class IperfStream),
-- which send and count blocks. A file transfer (class IperfFileTransfer) shares the control channel's
-- messages and sends the files of a queue over its own streams. The protocol library calls all of
-- them back with its events. The examples under example/simple are programs of their own.
--
-- Files and sources, all under example/iperf-bats unless a path is given:
--   Prelude       integers, octet strings, results and floating point that the models share
--   Common        iperf_common.h, iperf_common.cc: roles, reports, TestConfig with Serialize and
--                 Deserialize
--   Connection    include/cpp/bats_connection.h, bats_config.h: events and configuration
--   Wire          iperf_test_api.h: iperf_control_data, the header of a control message
--   FileExt       bats_file.h: the table of file types and its lookups
--   Retry         the loop around SendData
--   Stream        iperf_stream.h, iperf_stream.cc: the state, and below it Header (the header of a
--                 block, ValidateReceivedData), Report (counters, snapshots, summaries), Receive and
--                 Arrival (UpdateReceived and what it calls), Send (the sending thread), Control
--                 (constructors, ConnectionCallback, Stop)
--   Test          iperf_test.h, iperf_test.cc: the state, and below it Messages (SendTestSummary,
--                 SendTestParameters, SendAck, SendTestReady), Handlers (HandleControlMessage and
--                 the handlers it calls), Status (IsStreamReady, IsStreamDone, TestFinishState),
--                 Control (Start, Stop, OnSentFinished, the callbacks)
--   Transfer      iperf_file_transfer.h, iperf_file_transfer.cc: the state, and below it Block (the
--                 layout of a block), Sender (CreateFileTransferThread), Receiver
--                 (HandleReceivedFileData), Session (messages), Callbacks
--   Compressor    iperf_compress_api.cc: Compress and Decompress around the density library
--   Api           iperf_bats_api.h, iperf_bats_api.cc: the validations, and below it Arguments (the
--                 loop over the command line), Tests (the virtual functions of IIperfTest, by the
--                 two classes), Process (the state, InitFromArgs, StopAll), Channel (the callbacks
--                 of the control channel, HandleControlMessage), Polling (RunServer, RunTest, the
--                 two interval loops, and main of iperf.cc)
--   Simple        example/simple/bats_client_example.cc: the small client, its callback and
--                 StartSend; and below it Server (bats_server_example.cc) and ServerC
--                 (bats_server_c_example.c)
--   Examples      concrete values and tests
--
-- State is a record with the members of the class, and an operation is a function from state to
-- state; the field `calls` has what the operation asked of the world. An operation that can end the
-- process (an assertion, exit, a null pointer, an access out of bounds) returns a Result. The members
-- of width 64, 32, 16 and 8 wrap around where the source computes with them; times lie below 2^63.
-- Floating point is a record of operations, since the checker has no such numbers; `float` and
-- `double` are one type.
--
-- A loop that waits for other threads or for the connection runs over a schedule, a list of what it
-- meets in each round; where the schedule is used up and the loop would still wait, the result is the
-- fault `waiting`. Other threads act between the rounds only. All other loops are recursion on a list
-- or a count.
--
-- The waits of the process are bounded as in the source, 15 tries for the end of a test and 10000
-- sleeps for its streams; the schedule needs as many rounds, and a file one round more than it has
-- octets. In a round of the polling loops other threads may change the process in any way.
--
-- Not modelled: the protocol library itself, the recorder of sequence numbers and the ring
-- arithmetic (parameters in `Platform`), the density library (a parameter), std::stof and
-- the file system (parameters in `Host`), printing, log messages and progress bars, the formatting
-- of rates and sizes, and the C headers.
pub mod Prelude
pub mod Common
pub mod Compressor
pub mod Connection
pub mod Wire
pub mod FileExt
pub mod Retry
pub mod Stream
pub mod Simple
pub mod Test
pub mod Transfer
pub mod Api
pub mod Examples
