-- ===== src/Lib.antt =====
-- Verification of the paper-breakage analysis service (C++, src/).
--
-- The service takes the frames of up to six cameras, keeps the last seconds of each in a fixed ring,
-- runs detectors on them, and turns their results into events: a candidate event takes a lease on
-- the frames before it, is confirmed, rejected or timed out, and is stored and uploaded. A camera
-- that fails is reconnected with growing delays. Every frame is stamped with the camera's and the
-- service's time, goes through a bounded queue to the worker of its camera and on to the algorithm;
-- stored events are uploaded with retries and deleted when the disk runs full.
--
-- Files and code:
--   Base, Base/*: what the modules share. Base/Errors is src/common (error.hpp, error.cpp,
--     result.hpp); Base/Words the unsigned 64-bit integers; Base/Floating the floating-point numbers
--     as a parameter; Base/Slots the lemmas on rings of slots; Base/Integers the signed 64-bit integers;
--     Base/CameraSlots is src/common/include/paperbreak/common/camera_slots.hpp.
--   Time/Model, Time/Arithmetic, Time/Points, Time/Mapping, Time/Stamp: src/time/src/time_model.cpp and
--     src/time/include/paperbreak/time/time_model.hpp. checked_add, checked_subtract, multiply_divide,
--     camera_delta_nanoseconds; time_point_nanoseconds; map_monotonic_to_utc, map_utc_to_monotonic,
--     build_clock_sync_snapshot, ImmutableClockModelStore; build_frame_time_metadata. Time/Division,
--     Time/Overflow, Time/RoundTrip, Time/Exact and Time/Consistent hold the proofs.
--   Queue, Queue/*: the bounded queue that AcquisitionQueue (src/camera/src/acquisition.cpp) and
--     AlgorithmQueue (src/pipeline/src/pipeline.cpp) both write out, with wait_pop as begin_wait and
--     finish_wait; Queue/Contents, Queue/Fifo, Queue/Refine and Queue/Account hold the proofs.
--   Camera/State, Camera/Reconnect, Camera/Session: src/camera/src/state.cpp and
--     src/camera/include/paperbreak/camera/state.hpp. is_camera_transition_allowed;
--     ReconnectController (schedule_next, wait_for_scheduled as begin_wait and finish_wait, cancel,
--     reset, exhausted); CameraSessionController (transition_to, handle_failure, wait_for_retry as
--     finish_retry_wait and resume_retry, request_stop, reset_fault, apply_transition_locked as
--     apply_transition). Camera/Session/Observer adds the records that are handed to the observer after
--     the lock is released. Camera/Reconnect/* and Camera/Session/* hold the proofs.
--   Camera/Frame: src/camera/src/frame.cpp (FrameBuffer, make_frame_view). Camera/FramePool:
--     src/camera/src/frame_pool.cpp, with acquire as begin_acquire and finish_acquire.
--     Camera/Acquisition: AcquisitionQueue as a Queue of packets. Camera/Frame/View and
--     Camera/FramePool/Accounts hold the proofs.
--   Event/Ring: MemoryRing of src/event/src/memory_ring.cpp and
--     src/event/include/paperbreak/event/memory_ring.hpp (constructor, push). Event/Ring/Lease:
--     lease_window, MemoryRingLease::release and close. Event/Ring/Plan: plan_memory_ring.
--   Event/Uuid: UuidV7Generator of src/event/src/candidate_event.cpp. Event/Candidate: the types of
--     src/event/include/paperbreak/event/candidate_event.hpp and of
--     src/algorithm/include/paperbreak/algorithm/trigger.hpp; Event/Candidate/Observe: what one result
--     changes of a camera's intervals; Event/Candidate/Manager: transition_decision,
--     create_candidate and the branches of process; Event/Candidate/Manager/Calls: process,
--     update_external_signal, confirm, reject, advance_time and stop; Event/Candidate/Manager/Seeds:
--     rearm_seeds and apply_rearm_seeds. Event/Candidate/Phase/*,
--     Event/Candidate/Observe/Recovery and Event/Candidate/Manager/Decision hold the proofs.
--   Event/KeyFrameSelection, Event/KeyFrame: the selected frames and KeyFrameJpegRuntime of
--     src/event/src/key_frame.cpp, its worker as take_job and, with
--     the callback's return, settle. Event/KeyFrame/Bench is any order of its calls and its worker's
--     parts; Event/KeyFrame/Ring, Steps and Order hold the proofs.
--   Pipeline/Nodes, Pipeline/Processor, Pipeline/Runtime: src/pipeline/src/pipeline.cpp
--     (ValidityCheckNode, PreprocessingChain, PerCameraProcessor with its loop, ProcessingRuntime).
--     Pipeline/Processor/* and Pipeline/Runtime/* hold the proofs.
--   Storage/Paths, Storage/Policy, Storage/Admission, Storage/Maintenance, Storage/Run:
--     StoragePolicyManager of src/storage/src/storage_policy.cpp. Storage/Run/* and Storage/Watermark
--     hold the proofs.
--   Uplink/Retry, Uplink/Scheduler, Uplink/Scheduler/Decision: upload_retry_delay and
--     PersistentUploadScheduler of src/uplink/src/upload_scheduler.cpp. Uplink/Scheduler/Attempts holds
--     the proofs.
--   */Examples, Event/CandidateExamples, Event/KeyFrameExamples and Camera/FrameExamples: concrete
--     inputs.
--
-- How the parts meet: a candidate event calls lease_window of its camera's ring and gives the lease
-- back when it is retired or the manager stops. make_frame_view stamps the packets that have no stamp
-- through build_frame_time_metadata. A per-camera processor takes the answers of wait_pop of an
-- acquisition queue, checks each packet by make_frame_view and pushes to its algorithm queue. The
-- storage policy and the upload scheduler work on a world through records of operations, which stand for
-- the file system and the metadata database. A call under a lock is one step; a thread that waits is
-- two steps with any calls in between. Callbacks say whether they threw.
--
-- Bounds: counters and sums of the code are taken modulo 2^64 where it wraps, and std::int64_t by the
-- integers that fit in it. No definition runs on fuel: loops are recursions on lists or on the bits of a
-- number; a worker's loop is a recursion on the list of what its queue or database answered, and a
-- stopped thread does not read the rest of it.
--
-- Not modelled: the value of floating-point operations (the rounded product of a retry delay with its
-- jitter is a parameter), the messages, time stamps and native codes of errors, the snapshots that
-- only read, CandidateEventManager::create, the camera thread of acquisition.cpp, the grey-value
-- statistics node, the outer handlers of exceptions that end a worker, calls of the upload scheduler
-- that only pass on to the database, diagnostic callbacks, and the other parts of the program: event
-- windows, the selection of key frames, the NVMe cache, the event store and metadata database, time
-- synchronisation, configuration, uplink protocol, IPC, algorithm host, console, service core, preview,
-- logging and monitoring. Times of the storage policy are whole milliseconds.
-- Durations below zero, which the constructors refuse, are not represented.
pub mod Base
pub mod Camera
pub mod Event
pub mod Pipeline
pub mod Queue
pub mod Storage
pub mod Time
pub mod Uplink
