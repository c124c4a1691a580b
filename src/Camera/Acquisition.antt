-- ===== src/Camera/Acquisition.antt =====
-- src/camera/src/acquisition.cpp, `AcquisitionQueue`: the packets of one camera on their way to its
-- processor. Its code is that of the bounded queue, with `dropped_oldest` for what that skips.
use paper_breakage_analysis.Base.{ℕ, Bool, Option}
use paper_breakage_analysis.Base.Integers.{ℤ}
use paper_breakage_analysis.Queue.{
  BoundedQueue, EnqueueStatus, DequeueResult, new_queue, push, begin_wait, finish_wait, close,
}
use paper_breakage_analysis.Camera.Frame.{FramePacket}

abbrev pub AcquisitionQueue : Type 0
AcquisitionQueue = BoundedQueue FramePacket

abbrev pub new_acquisition_queue : ℕ → Option AcquisitionQueue
new_acquisition_queue capacity = new_queue capacity

abbrev pub push_packet : AcquisitionQueue → FramePacket → AcquisitionQueue × EnqueueStatus
push_packet queue packet = push queue packet

abbrev pub begin_packet_wait :
    AcquisitionQueue → Bool → ℤ → Option (AcquisitionQueue × DequeueResult FramePacket)
begin_packet_wait queue stop_requested limit = begin_wait queue stop_requested limit

abbrev pub finish_packet_wait :
    AcquisitionQueue → Bool → AcquisitionQueue × DequeueResult FramePacket
finish_packet_wait queue stop_requested = finish_wait queue stop_requested

abbrev pub close_packets : AcquisitionQueue → AcquisitionQueue
close_packets queue = close queue
