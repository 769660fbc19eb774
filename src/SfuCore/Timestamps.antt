-- ===== src/SfuCore/Timestamps.antt =====
-- What a subscriber sees of a stream's timestamps.
use fluvora.Prelude.{ℕ, ◌+◌, ◌%◌, ◌^◌, ◌<◌, ◌≡◌, false, some, arith}
use fluvora.SfuCore.DownTrack.{DownTrack, rebase, rewrite_timestamp}

-- While the source does not change, output timestamps move by exactly what the input timestamps
-- move by, modulo 2 ^ 32, however often they wrap: for two packets in a row of a down-track that
-- has a source, the first output plus the second input is the second output plus the first input.
pub rewrite_timestamp-difference :
    (d : DownTrack) (ssrc first second : ℕ)
    → d.current_input_ssrc ≡ some ssrc
    → d.input_timestamp_base < 2 ^ 32
    → first < 2 ^ 32
    → second < 2 ^ 32
    → ((rewrite_timestamp first false d).0 + second) % 2 ^ 32
      ≡ ((rewrite_timestamp second false (rewrite_timestamp first false d).1).0 + first) % 2 ^ 32
unfolding rewrite_timestamp rebase
rewrite_timestamp-difference d ssrc first second e base one two = rw e omega arith
