-- ===== src/Lib.antt =====
-- The core data parts of RBus, the bus that lets the processes of a device share properties, events
-- and methods. A program calls the API of src/rbus; values and filters are encoded into byte buffers
-- there; a message travels through the connection of src/rtmessage, behind a message header, to the
-- router and from it to its receiver. The session manager is one such program.
--
-- The files:
-- Error: the codes of src/rtmessage/rtError.h.
-- Encoder: src/rtmessage/rtEncoder.c, numbers and strings in network byte order. A reader or a
--   writer, there a pointer that moves, is the list of the bytes ahead or behind.
-- Header: src/rtmessage/rtMessageHeader.c, which the router and the connection call for each
--   message. init, encode, decode, set_is_request and is_request are the functions
--   rtMessageHeader_Init, _Encode, _Decode, _SetIsRequest and _IsRequest; the steps of decoding
--   between two guards are functions of their own.
-- Buffer: src/rbus/rbus_buffer.c, where create, reserve, write, write_type_length_value, read and
--   read_number are rbusBuffer_Create, _Reserve, _Write, _WriteTypeLengthValue, _Read and the typed
--   readers. Its cells know which memory has been written.
-- Value: src/rbus/rbus_value.c, where encode, decode and compare (Value/Compare) are
--   rbusValue_Encode, _Decode and _Compare; Value/Kinds has the types, Value/Dates rbusDateTime_t.
-- Filter: src/rbus/rbus_filter.c, where apply, encode, decode and compare_filters are
--   rbusFilter_Apply, _Encode, _Decode and _Compare. Filter/Meaning has the meaning of the
--   operators on integers.
-- Session: src/session_manager/session_manager.c, where handle is sessionManager_methodHandler.
-- Time: src/rtmessage/rtTime.c. Vector: src/rtmessage/rtVector.c.
-- Base64: src/rtmessage/rtBase64.c, where encode and decode are rtBase64_encode and _decode.
-- Object: the property list of src/rbus/rbus_object.c and src/rbus/rbus_property.c, where
--   get_property, set_property, get_value and set_value are rbusObject_GetProperty, _SetProperty,
--   _GetPropertyValue and _SetPropertyValue.
-- RoutingTree: src/rtmessage/rtRoutingTree.c, the topics that routes of the router listen to.
--   add_topic_route, get_topic_routes, get_route_topics and remove_route (RoutingTree/Operations) are
--   rtRoutingTree_AddTopicRoute, _GetTopicRoutes, _GetRouteTopics and _RemoveRoute; remove_topic and
--   resolve_partial_path (RoutingTree/Removing) are _RemoveTopic and _ResolvePartialPath. add_tokens
--   is the part of an addition behind the tokens. A route stands for its rtTreeRoute and the address
--   that it is registered with, which is sound while no freed route is pointed to. RoutingTree/Reach
--   has the steps that the router daemon src/rtmessage/rtrouted.c makes, rtRoutingTree_RemoveTopic
--   included. A run is orderly if no topic is removed and no route is added to a topic that lists
--   it where duplicates are not refused. The theorems on runs are about orderly ones: behind the
--   other steps the tree can point to freed routes.
-- HashMap: src/rtmessage/rtHashMap.c, where create, set, get, remove and resize are
--   rtHashMap_CreateEx, _Set, _Get, _Remove and _Resize; HashMap/Runs runs series of calls.
-- ThreadPool: src/rtmessage/rtThreadPool.c. run_task, stop_all_thread and shut_down are
--   rtThreadPool_RunTask, _StopAllThread behind its wait, and _Destroy behind that; worker_step is
--   rtThread_WorkerThreadFunc from one lock to the unlock or the wait behind it. ThreadPool/Schedule
--   has the steps of all threads in any order, ThreadPool/Clock the times.
-- TokenChain: src/rbus/rbus_tokenchain.c, where create and match are TokenChain_create and _match.
--   TokenChain/Match says what the parts of a name stand for, TokenChain/Parts how they are written.
-- RtList: src/rtmessage/rtList.c, with the functions' names in lower case. The items stand in a memory
--   of a function per field; RtList/Contents says which items a list stands for. remove_first is
--   rtList_RemoveItemWithData and rtList_RemoveItemByCompare, search_item the walk in them and in
--   rtList_Find. RtList/Runs has series of calls on a new list, RtList/Refinement what
--   they do.
-- Subscriptions: _compareEventNameToElemName of src/rbus/rbus_subscriptions.c.
-- Outcome: the results of the functions that refuse their input or assert. Base: shared names.
--
-- Numbers are natural numbers below the bound of their C type, with the wrap-around written out where
-- the code has it. A pointer that may be NULL is an Option. An access outside an array, and a failed
-- assertion, is a fault that no theorem assumes away. Filter.decode recurses on fuel: one more than
-- the number of bytes ahead is enough, since each level takes eight bytes, and for what encode wrote
-- one more than the depth of the filter. The walks of RtList have the size of the list as fuel, enough
-- where the items are linked. All other functions are structurally recursive.
--
-- Floating-point numbers, mktime, the clock and the hash function of a map are parameters.
-- Allocation succeeds in Buffer, where the code stops the process otherwise, and in HashMap,
-- RoutingTree, RtList and ThreadPool, where pthread_create succeeds too; it may fail in Vector and
-- Base64. Not modelled: sockets and logs, which are system calls, and threads outside ThreadPool;
-- cJSON, msgpack and OpenSSL, which are other libraries; and, so far, the rest of the router, the connection,
-- the object tree, the elements and the sets of subscriptions of the API.
pub mod Base
pub mod Base64
pub mod Buffer
pub mod Encoder
pub mod Error
pub mod Filter
pub mod HashMap
pub mod Header
pub mod Object
pub mod Outcome
pub mod RoutingTree
pub mod RtList
pub mod Session
pub mod Subscriptions
pub mod ThreadPool
pub mod Time
pub mod TokenChain
pub mod Value
pub mod Vector
