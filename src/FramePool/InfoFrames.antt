-- ===== src/FramePool/InfoFrames.antt =====
-- `ContFramePool::needed_info_frames`: the frames that hold a pool's bitmap.
use demand_paged_virtual_mem.Common.{ℕ, ◌+◌, ◌*◌, ◌≤◌, ◌<◌, arith}
use demand_paged_virtual_mem.FramePool.{frame_size, needed_info_frames}
use demand_paged_virtual_mem.FramePool.Count.{frame_limit}

-- For at most 2^20 frames, the info frames hold two bits for each of the `n` frames, and one info
-- frame fewer does not.
pub needed_info_frames_exact :
    (n : ℕ)
    → n ≤ frame_limit
    → (n ≤ needed_info_frames n * frame_size * 4)
      × (needed_info_frames n * frame_size * 4 < n + frame_size * 4)
unfolding needed_info_frames
needed_info_frames_exact n h = omega arith

pub needed_info_frames_pos : (n : ℕ) → 0 < n → n ≤ frame_limit → 0 < needed_info_frames n
needed_info_frames_pos n pos h = omega (arith, needed_info_frames_exact n h)

pub needed_info_frames_le : (n : ℕ) → n ≤ frame_limit → needed_info_frames n ≤ n
unfolding needed_info_frames
needed_info_frames_le n h = omega arith
