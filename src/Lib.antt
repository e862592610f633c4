-- ===== src/Lib.antt =====
-- A model of SteamDeckGyroDSU, a service that reads the gyroscope of a Steam Deck and sends its motion
-- to clients on the network in the cemuhook protocol (DSU).
--
-- How the program works. A reader (src/hiddev, inc/hiddev) is a pipeline of threads: one reads frames of
-- 64 bytes from the controller, one perhaps takes them out of the records of a hiddev file, and one
-- serves them. The threads hand data to one another through the classes of src/pipeline and
-- inc/pipeline: a triple buffer (PipeOut), a flag (SignalOut) and a buffer under a lock (Serve). The
-- adapter (src/sdgyrodsu, inc/sdgyrodsu) consumes a frame and turns it into motion data, fills gaps in
-- the frames, and signals the reader when the gyro seems to be off. The server (src/cemuhook,
-- inc/cemuhook) answers requests in one thread, serverTask, and sends motion data to the clients that
-- subscribed in another, sendTask, which runs only while there are clients. main (src/main.cpp) builds the
-- reader, the adapter and the server, starts the reader, and waits until a signal tells it to stop.
--
-- Where each part is modelled.
--   Base: names of the libraries that the other modules share, tests on numbers, lists that are
--     measured by native numbers, laws of the bitwise operations, signed integers, and in Base/Digits
--     numbers as the streams of C++ print and read them.
--   Cemuhook/Crc: crc32 of src/cemuhook/cemuhookserver.cpp, bit by bit.
--   Cemuhook/Protocol: the packets of inc/cemuhook/cemuhookprotocol.h and their bytes.
--   Cemuhook/Answers: the answers that the server prepares, PrepareAnswerConstants to
--     CalcCrcDataAnswer. What memory holds before it is written is an argument.
--   Cemuhook/Clients: the table of clients, from operator== to the loops of CheckClientTimeout.
--   Cemuhook/Server: the state of the class Server and its two threads. Receiver has serverTask with its
--     handlers, the rest of CheckClientTimeout and the destructor's request to stop; Sender has sendTask. A
--     thread stands at a program counter (ServerPc, SendPc); a step (Step in Run) moves one of them,
--     from one point where they can meet to the next: a lock, a wait, a join, a test of a flag. Reach is
--     what any interleaving of these reaches from the constructor. Cemuhook/Listener: the socket of
--     the server, Start and the destructor.
--   Pipeline/SignalOut, Pipeline/PipeOut, Pipeline/Serve, Pipeline/Thread: the four classes of
--     inc/pipeline. A method that holds the mutex throughout is one step; a wait that cannot go on is
--     `none`. A thread's body is given by how it reacts to ShouldContinue.
--   Sdgyrodsu/Frame: SdHidFrame and GetSdFrame. Sdgyrodsu/Motion: SetMotionData and what it calls.
--     Sdgyrodsu/Adapter: CemuhookAdapter, above all SetMotionDataNewFrame; its module Source fills the
--     interface MotionSource through which the server calls the adapter. Its module Times has the
--     order of the time stamps. Sdgyrodsu/Presenter: Presenter::Present.
--   Hiddev/MissedTicks: HandleMissedTicks. Hiddev/Reader: the pipeline of HidDevReader, its start and
--     stop; its module Construction has the constructors and the methods that pass a call on.
--     Hiddev/HidApiDev: the device behind hidapi; its module Library has the devices that share the
--     library. Hiddev/ReadDataApi: the thread that reads the device, from its rounds to its body.
--     Hiddev/HidDevFile: the descriptors of a hiddev file. Hiddev/ReadDataFile: HidDevFile::Read, and the
--     rounds of the thread that reads a hiddev file. Hiddev/ProcessData: the loop that takes a frame out of
--     the records of a hiddev file, and the rounds around it. Hiddev/ServeFrame: the consumers of the
--     frames and a round of the thread that serves them; its module Execute has the body, a step at a
--     time. Hiddev/Delivery: the way of the frames from the thread that reads to one consumer, as steps
--     of the threads that meet at the locks of a PipeOut and of a Serve. Hiddev/Finder: FindHidDevNo.
--   Log: the level and the messages of src/log and inc/log. Shell: ExecuteCommand of src/shell.
--   System/Main: the signal handler of src/main.cpp, and what main builds before its wait.
--     System/Frames: the delivery of frames together with the adapter that consumes them. System/Sessions:
--     what StartFrameGrab and StopFrameGrab of the adapter do to the reader.
--
-- Conventions. A word of w bits is a number, and the arithmetic on it is taken modulo 2 ^ w where the
-- source can wrap. A float is its bit pattern; the operations on floats are a parameter
-- (Sdgyrodsu/Floats). The answers of the network, of hidapi, of libsystemd, of the file system and of the
-- adapter's frames are arguments, given as functions, as lists or as labels of steps; an answer that does
-- not come yet is `none` or `waits`. A text is the list of its bytes. The memory model is sequential:
-- between two steps nothing else happens, so data races outside the locks are not seen. A wait on a
-- condition variable goes on once its condition holds, as it must where the condition changes under the
-- mutex of the wait; WaitForServes, whose stop does not, is blocked until it is notified. A thread that was
-- asked to be cancelled comes to a cancellation point, as pthreads documents of the calls it waits in.
--
-- Bounds and fuel. The loop of SetMotionDataNewFrame is a recursion on the frames that are served; its
-- own bound of 1000 repeated frames makes 1002 enough for a call to return. The loop of
-- HidApiDev::Read is a recursion on hidapi's answers. `drain` in Cemuhook/Server/Stopping takes at
-- most five steps, which reach the end of sendTask from every point of it, and that in
-- Hiddev/ServeFrame/Execute/Stopping at most three. The loop of ReadDataApi::Execute is a recursion on
-- the turns that it takes. The counters of HandleMissedTicks are treated at the period of 250 that all
-- callers pass. The loop of ExecuteCommand is a recursion on as many rounds as the output has bytes,
-- since a round that goes on takes at least one. A number is printed with at most 4 hexadecimal
-- digits, for 16 bits, or 10 decimal ones, for 31.
--
-- Not modelled: several consumers in one interleaving with the frames that they read, the start and end
-- of ncurses in the presenter, the lines that parts other than main put in the log, and the build files.
-- gyrovaldetermine.h declares a class that nothing defines.
pub mod Base
pub mod Cemuhook
pub mod Hiddev
pub mod Log
pub mod Pipeline
pub mod Sdgyrodsu
pub mod Shell
pub mod System
