-- ===== src/Lib.antt =====
-- CMDTran is a server that passes pictures from phones to the PCs that watch their cameras. Bytes
-- come in over epoll on many sockets; a frame restructurer per socket cuts them into frames and
-- copies each frame to a block of a memory pool; workers, each with one thread, process the frames
-- of a socket in order, answer logins and send pictures on; a count of pending frames per client
-- switches the reading of its socket off and on.
--
-- Common has the names of the libraries that the other files share, Boolean tests on the native
-- numbers, lists indexed by them, signed numbers for the counters, and std::map as a list in the
-- order of its keys.
--
-- FrameRestruct models ComandTran/src/FrameRestruct.cpp and ComandTran/inc/FrameRestruct.h: the
-- record FrameRestruct is the class, and restruct_frame, get_head_index, get_frame_len, check_sum,
-- copy_rest_to_exit_buff, save_frame, get_buffer, free_buffer and add_to_list are its methods
-- RestructFrame, GetHeadIndex, GetFrameLen, CheckSum, CopyRestToExitBuff, SaveFrame, GetBuffer,
-- FreeBuffer and AddToList. What the class asks of CRecvDataProc is the record
-- FrameRestruct.Interface.DataProc, which RecvDataProc.Service fills. FrameRestruct.Decode has the
-- frame format as a function on a whole stream, written after the file ComandTran/FrameStruct and
-- without the two buffers.
--
-- LockFreeQueue models ComandTran/inc/LockFreeQueue.h, with its counters of 32 bits written out:
-- push and pop are calls that no other thread disturbs, and LockFreeQueue.Threads has Push and Pop
-- as any number of threads run them at once, where push_access and pop_access are the single
-- accesses of a shared word or cell, Step is one access or the start of a call, and two lists
-- record what was reserved and taken. MemPool models ComandTran/src/MemPool.cpp and
-- ComandTran/inc/MemPool.h on the undisturbed queue: creat_pool, get_block, free_block, extend_pool
-- and free_mem are CreatPool, GetBlock, FreeBlock, ExtendPool and FreeMem. A client's blocks are a
-- list of addresses beside the pool. MemBlockListManager models
-- ComandTran/src/MemBlockListManager.cpp and ComandTran/inc/MemBlockListManager.h, a list of blocks
-- in a heap: push_head, push_trail, get_block_head, delete_block_with_addr and is_empty.
--
-- ThreadPool and MasterWorkPool model ComandTran/src/ThreadPool.cpp and
-- ComandTran/src/MasterWorkPool.cpp with their headers: the task lists, what a thread has of
-- GetTask, and the choice of the worker by the remainder of an id. ThreadPool.Threads has the
-- threads of a pool with TaskListLock and the condition TaskListReady: thread_step is one step of
-- _ThreadRoutine and GetTask, and Step adds the calls of AddTask, AddTaskBatch and ShutDown, in any
-- order.
--
-- RecvDataProc models ComandTran/src/RecvDataProc.cpp, ComandTran/inc/RecvDataProc.h and the
-- forwarding of ComandTran/src/RecvDataProcIntf.cpp: the map of the clients with add_client,
-- quit_client, add_recv_data, increase_frame_count, decrease_frame_count, command_proc and what it
-- calls, and process_task for CFrameProcTask::ProcessTask. The epoll server is the record
-- RecvDataProc.Server.EpollServer, and RecvDataProc.Server.Reading has what its calls do to the
-- flags that it keeps of its sockets; EpollServer.Serves fills both.
--
-- MemChain models ComandTran/src/MemChain.cpp and ComandTran/inc/MemChain.h, the list of the
-- buffers that wait to be sent on a socket, with its nodes in a heap from which deleted ones are
-- gone, so that a use of a deleted node is a fault.
--
-- EpollServer models ComandTran/src/EpollServer.cpp and ComandTran/inc/EpollServer.h: send_data,
-- remove_socket, modify_read, enable_read, disable_read and switch_all are SendData, RemoveSocket,
-- ModifyRead, EnableRead and DisableRead of a socket and of all sockets; process_send_task in
-- EpollServer.SendTask is CSocketSendTask::ProcessTask; process_recv_ents and process_recv_data in
-- EpollServer.RecvTask are CSocketRecvTask::ProcessRecvEnts and ProcessRecvData, on a CRecvDataProc
-- that stands on the epoll server; start, init_evn, init_scoket, add_lis_sock_event and post_events
-- in EpollServer.Start are Start, InitEvn, InitScoket, AddLisSockEvent and the loop over the events
-- in _EventRecvFun. The system calls are the records EpollServer.Interface.Kernel,
-- EpollServer.Interface.Network and EpollServer.Start.Setup; EpollServer.Interface.Control has what
-- epoll_ctl does to the sockets that are read, and EpollServer.Interface.Reads that a socket has a
-- limited number of bytes at hand while a task reads it. The callbacks that were called are kept in
-- a list. EpollServer.Sound says when an epoll server is in order, and EpollServer.Runs has the
-- receive tasks, the frame tasks and the send tasks of a server one after the other.
--
-- Cmdproc models ComandTran/src/cmdproc.cpp and ComandTran/inc/cmdproc.h: command_pro and
-- recv_data_proc are CommandPro and Cmdproc::RecvDataProc, each_line is their loop over fgets, and
-- the record Shell has popen, pclose and send. Log models ComandTran/src/log.cpp, with log_write
-- and get_current_time for LogWrite and GetCurrentTime, and Int2String of
-- ComandTran/src/BasicFun.cpp.
--
-- Fuel: restruct_loop gets one round more than there are bytes, since every round that does not end
-- the loop moves its index on by one at least; free_mem gets its fuel as an argument, and takes one
-- free block in each round; drain gets one round more than its chain has nodes, and takes one node
-- in each; destroy gets its fuel as an argument, and deletes one node in each round; send_chain
-- gets its fuel as an argument, since its loop has no end while send returns 0. process_recv_data
-- gets its fuel as an argument, and each round of it leaves less to read; delete_loop takes one
-- block in each round. each_line gets its fuel as an argument, and each line takes one byte or more
-- of the output; ten digits are enough for an int. Bounds: the threads of LockFreeQueue are looked
-- at as long as fewer than 2 ^ 32 - 1 places were reserved, so that no counter wraps; the
-- undisturbed queue is looked at below 2 ^ 24 - 1 elements, less than the length of its ring, and
-- the pools of the program, with their 20 lots of blocks, stay below that.
--
-- Not modelled: memory models weaker than sequential consistency, the locks of RecvDataProc and
-- EpollServer (an operation under a lock is one step) and tasks of different threads that overlap,
-- overflow of the signed counters of frames, the failure of new, spurious wake-ups of a condition
-- variable, pthread_join, the calls of the log, the waiting in epoll_wait, the test programs, the
-- loop of ComandTran/src/main.cpp, which runs what is typed, the sleeps of
-- ComandTran/src/BasicFun.cpp, and the destructors but those of CMemPool and CMemChain.
pub mod Cmdproc
pub mod Common
pub mod EpollServer
pub mod FrameRestruct
pub mod LockFreeQueue
pub mod Log
pub mod MasterWorkPool
pub mod MemBlockListManager
pub mod MemChain
pub mod MemPool
pub mod RecvDataProc
pub mod Tests
pub mod ThreadPool
