-- ===== src/Lib.antt =====
-- dcrud: a library that shares objects between programs on a network. Each program has caches of
-- the objects that it publishes or follows; an object has a class and an identity, and travels as
-- bytes. This development is about the C library, C/src and C/inc.
--
-- The parts, from the bottom up, and the files that model them:
--
-- Util: `utilStatus`, the code that every function returns, and the cast with which every
-- operation checks the magic number of its object (C/inc/util/Status.h, types.h) are Util/Status
-- and Util/SafeCast; `utilPool`, from which the static build allocates (C/src/util/Pool.c), is
-- Util/Pool; strings in memory of a known size (C/src/util/String.c) are
-- Util/Strings.
-- Io: `ioByteBuffer` (C/src/io/ByteBuffer.c), a buffer of bytes with a position, a limit and a byte
-- order, is Io/ByteBuffer: the operations on the buffer itself there, and in Allocation, Numbers,
-- Text and Socket below it those that the names say.
-- Coll: the collections (C/src/coll). Comparators are Coll/Compare, and List.c, Set.c and Map.c are
-- Coll/CollList, CollSet and CollMap; what these share is Coll/Array and Coll/Storage.
-- Crud: `dcrudClassID` and `dcrudGUID` (C/src/dcrud), the class and the identity of an object, are
-- Crud/ClassId and Crud/Guid. They are put to and read from an `ioByteBuffer`.
-- Crud also has the objects of a program and what is done with them. `dcrudShareable` is
-- Crud/Shareable. `dcrudICache`, the objects that a program publishes, is Crud/Cache, with
-- Cache/Calls and Cache/Publishing. `dcrudArguments`, the named and typed arguments of a call, is
-- Crud/Arguments, with Puts, Gets and Serializing below it. What a participant sends (C/src/dcrud/
-- ParticipantImpl.c, IProtocol.h) is Crud/Outbox and Crud/Protocol, and in Outbox/Calls the calls;
-- what it does with a datagram (NetworkReceiver.c) is Crud/Receiver, with the calls in
-- Receiver/Operation and Receiver/Calling. A cache hands its changed objects to its participant,
-- which writes a frame for each and sends it; the receiver of another host hands the bytes of a frame
-- to its caches, or reads the arguments of a call and gives it to the dispatcher or the callback it
-- is for.
-- Base is what all files share, and Tests has concrete runs.
--
-- How the code is read. A function of C that returns a status and writes to its object is a function
-- from the object to the status and the object; what it writes through a pointer to a result is a
-- part of the answer, `none` where nothing is written. An object that may be NULL is an `Option`. A
-- field `magic` is kept, and an operation on an object with another magic number does what the code
-- does. `snake_case` names stand for the names of the code without their prefix: `put_ushort` for
-- `ioByteBuffer_putUShort`. Numbers are natural numbers; where the code computes with w bits, `% 2 ^ w`
-- is written out. Hosts are 64-bit, of either byte order. The static build and the build over
-- `malloc` differ, and `Build` tells which one is meant. What an allocator, a socket, `bsearch` or
-- `qsort` answers is an argument; Coll/Libc states what the C standard says of the last two.
--
-- Where the code reads or writes outside of an array, or through a NULL that it does not look for,
-- it has no behaviour to model: a definition says so where it can happen, and what it answers there
-- is not meant.
--
-- Fuel is used in one place, the loop of `collList_indexOf`: it has the index as its only state,
-- and what is stated of it holds for every amount.
--
-- An address is an element of a type: `P` for objects, `G` for identities; `Heap` tells what lies
-- there. What a program supplies, as the factory of a class of objects, is a function in a record.
-- Where the code reads a field of a union that is not the one that was written, what it finds is in
-- a record, `Misread`. `dcrudIParticipantImpl_newInstance`, which makes an object from a frame, is an
-- argument of what the receiver does with a call. A call is modelled up to the function that it is
-- given to.
--
-- Not modelled: the command line; printing, dumps, traces and clocks; threads, mutexes and sockets,
-- which wrap the operating system; in C/src/dcrud the dispatcher, the callbacks and
-- factories of a participant, how the arguments of a call give memory back, and what
-- `dcrudICache_refresh` does with a NULL cache; C/src/channel; the ports to C++ and Java.
pub mod Base
pub mod Util
pub mod Coll
pub mod Io
pub mod Crud
pub mod Tests
