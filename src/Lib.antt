-- ===== src/Lib.antt =====
-- tr069agent: a CPE WAN management agent (TR-069) in C. This library models the engine under
-- dm_engine/, whose data model is a list of parameters, some of them computed from others by
-- expressions.
--
-- The parts and their files:
--   Prelude       what all parts share: Booleans, options, lists, texts as lists of byte codes
--                 (`Bytes`), and integers, over the native natural numbers.
--   Common        dm_engine/src/DM_ENG_Common.c. Number: the conversions DM_ENG_stringToInt, ...Uint,
--                 ...Long, ...Bool and DM_ENG_intToString, ...Uint..., ...Long.... CommaList: the
--                 functions on comma-separated lists. Escape: DM_ENG_encodeValue and
--                 DM_ENG_decodeValue, on buffers (Buffer) where a write outside is an error value.
--   ComputedExp   dm_engine/src/DM_ENG_ComputedExp.c. Token is `_getToken`, Level and Parse are the
--                 functions `_parseList` to `_parsePrim`, Value and Eval are `_evalUint`, `_evalBool`
--                 and `_eval`, Changed is `_isChanged`. An expression that a parameter is defined by
--                 is parsed at each use, and evaluated through a callback that gives the values of
--                 other parameters.
--   Parameter     dm_engine/src/DM_ENG_Parameter.c. Struct is the struct, with the flag
--                 `_dataChanged` and the calls of the scheduler beside it; Name has the functions on
--                 names, Value those that set, commit, cancel and reset a value, Load those that
--                 load and release it, Check is `DM_ENG_Parameter_checkBeforeSetValue`; Step makes
--                 one relation of all calls; Make has the constructors. TypeText is
--                 dm_engine/src/DM_ENG_ParameterType.c.
--   Event         dm_engine/src/DM_ENG_EventStruct.c: the codes of events and their interning.
--   Store         dm_target_implementation/PCLINUX/dm_target_dataManagement/src/
--                 DM_DAT1_ParameterData.c, which keeps the data of the engine. Struct is the record of
--                 the control data; Keys has the reboot command keys, Schedule the scheduled
--                 Informs, Events the events, Transfers the queues of transfers and downloads;
--                 Tree is the list of parameters with `createInstance` and `deleteObject`; Line
--                 is the line of a parameter in the data file, from `_writeParameters` and
--                 `_readFileParameters`, EventLine is the line of the events in the control
--                 data, ControlLine the first two lines of that file.
--   Manager       dm_engine/src/DM_ENG_ParameterManager.c: `manageEvents`, which makes events of the
--                 Informs and transfers that are due, and the next timeout; Transfers is
--                 `manageTransferRequest`, Results empties the queues of transfers and downloads.
--   Access        dm_engine/src/DM_ENG_ParameterManager.c: the access to the parameters. Set is
--                 `setParameterValue`, Commit has `commitParameter`, `unsetParameter` and
--                 `setParameterKey`, Objects `addObject` and `deleteObject`. The record Manager is
--                 the list of parameters and the static variables of the file; the record
--                 Platform is what the build, the device adapter and the loads of names and values
--                 give. The other modules have proofs: Restored what a change keeps of a value,
--                 Given that it is set, Unset that no change stays pending, Ends that the
--                 redirections end.
--   Rpc           dm_engine/src/DM_ENG_RPCInterface.c: the methods of TR-069 on the parameters, between
--                 the lock of the data and its release. Values is `DM_ENG_SetParameterValues` by an
--                 entity other than the system, Read
--                 has the methods that get names, values and attributes, Attributes is
--                 `DM_ENG_SetParameterAttributes`, Objects adds and deletes objects. Atomic and
--                 Applied are about values, Levels and Filtered about what is read, Restore and
--                 Rollback about attributes.
--   Notify        dm_engine/src/DM_ENG_NotificationInterface.c: `inform`, which leaves out of an Inform what
--                 the entity set itself and so knows. Withheld is about what is left out.
--   Scheduler     dm_engine/src/DM_ENG_InformMessageScheduler.c: the status of the device and of the
--                 session, the events that wait, and the retry delay.
--   Transfer      dm_engine/src/DM_ENG_TransferRequest.c: the queue of transfers.
--   Entity        dm_engine/src/DM_ENG_EntityType.c: the entities of access lists.
--
-- How the code corresponds to the model: `char*` that may be NULL is an `Option Bytes`; a `bool` result
-- with an `OUT` pointer is an `Option`, or a pair where callers read the pointer in both cases;
-- `unsigned int` is a natural number with its wrap-around modulo 2 ^ 32 written out; `int` has 32
-- bits and `long` 64; `char` is signed. Released memory is not modelled.
--
-- Fuel: the parser has ten steps of depth for each token and ten more, the lexer one step for each
-- character and one more, the loops of digits the size of their buffer. A call of the parser
-- goes down nine levels before it takes a token, and a step of the lexer takes a character. The
-- loop over the earlier scheduled Informs has a step for each character of their times, and every
-- round takes at least one; the loop of `createInstance` has two steps for each parameter, one of the
-- list and one that may be added. The loop over the scheduled Informs that are due has a step for
-- each character of their times and two more; the loop over the reboot keys one for each character and
-- one more, and the one over the events of a line one for each character. The functions that follow
-- redirections have a round for each name, and are shown to need no more than one for each parameter
-- and one more, `commitParameter` excepted, which follows the names that were set before.
--
-- Not modelled: of the parameter manager, the loads of names and values from the system, which are an
-- argument, and the lock with its queue of notifications; of the notification interface, the registration of
-- the listeners; of the RPC interface, the update by the
-- system, the transfers and the decision to lock; the sending of messages and the waits of the
-- scheduler; the statistics; of the data store, `deleteParameters`, the lines of requests in the control data,
-- the CRC, which is taken to be right where the control data are read, and the handling of files and locks; the store over QDBM; the communication with the ACS
-- (dm_com/), with other processes (dm_ipc/) and with the device (dm_target_implementation/), which are
-- input and output around third-party libraries; the copies of ixml, MD5 and SHA-1. The clock and the
-- conversion of dates (`DM_ENG_dateStringToTime`, over sscanf and mktime) are parameters of the
-- evaluation and of the test of a value. Memory allocation is taken to succeed, and counts of
-- parameters are taken to be far below the bound of an `int`. Arrays and texts that two structs
-- share are copies in the model.
pub mod Prelude
pub mod Access
pub mod Common
pub mod ComputedExp
pub mod Entity
pub mod Event
pub mod Manager
pub mod Notify
pub mod Parameter
pub mod Rpc
pub mod Scheduler
pub mod Store
pub mod Transfer
