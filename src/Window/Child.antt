-- ===== src/Window/Child.antt =====
-- src/gui.rs, `read_bounded_child_line`: the capture of one line of the engine's output. The reader is
-- the list of the chunks that `fill_buf` returns; an empty one is the end of the output.
pub mod Chunks
use xus_miner.Common.{
  ℕ, ◌+◌, ◌-◌, ◌*◌, min, Bool, true, false, ◌&&◌, ◌||◌, not, List, [], ◌∷◌, ◌++◌, Option, none,
  some, ltb, ◌==◌, if◌then◌else◌, length, take,
}
use xus_miner.Job.{Bytes}

abbrev pub max_child_line_bytes : ℕ
max_child_line_bytes = 8 * 1024

-- What is found up to the newline, and what stands behind it, if there is a newline.
unfoldable pub find_newline : Bytes → Bytes × Option Bytes
find_newline [] = ([], none)
find_newline (b ∷ bs) =
    let (content, behind) = find_newline bs in
    if b == b'\n' then ([], some bs) else (b ∷ content, behind)

pub record Capture : Type 0 where
  pub captured : Bytes
  pub truncated : Bool
  pub reached_line_end : Bool
  pub rest : List Bytes

-- The chunk that is left in the buffer, if it is not used up.
unfoldable pub put_back : Bytes → List Bytes → List Bytes
put_back [] chunks = chunks
put_back (b ∷ bs) chunks = (b ∷ bs) ∷ chunks

keep : Bytes → Bytes → Bytes
keep captured content =
    captured ++ take (min (length content) (max_child_line_bytes - length captured)) content

is_cut : Bytes → Bytes → Bool
is_cut captured content =
    ltb (min (length content) (max_child_line_bytes - length captured)) (length content)

-- What ends the loop, or goes on with it.
stop_at : Bytes → Bool → List Bytes → Capture → Option Bytes → Capture
unfolding put_back
stop_at captured truncated chunks next none = next
stop_at captured truncated chunks next (some left) = record {
  captured = captured;
  truncated = truncated;
  reached_line_end = true;
  rest = put_back left chunks;
}

-- The loop.
pub capture_line : Bytes → Bool → List Bytes → Capture
unfolding find_newline stop_at keep is_cut
capture_line captured truncated [] = record {
  captured = captured;
  truncated = truncated;
  reached_line_end = false;
  rest = [];
}
capture_line captured truncated ([] ∷ chunks) = record {
  captured = captured;
  truncated = truncated;
  reached_line_end = false;
  rest = [] ∷ chunks;
}
capture_line captured truncated ((b ∷ bs) ∷ chunks) =
    let (content, behind) = find_newline (b ∷ bs) in
    let captured' = keep captured content in
    let truncated' = truncated || is_cut captured content in
    let next = capture_line captured' truncated' chunks in
    stop_at captured' truncated' chunks next behind

is_silent : List Bytes → Bool
is_silent [] = true
is_silent ([] ∷ chunks) = true
is_silent _ = false

drop_last_cr : Bytes → Bytes
drop_last_cr [] = []
drop_last_cr (b ∷ []) = if b == b'\r' then [] else b ∷ []
drop_last_cr (b ∷ c ∷ bs) = b ∷ drop_last_cr (c ∷ bs)

-- The bytes that are decoded, and whether they were truncated; `none` at the end of the output.
pub read_child_line : List Bytes → Option (Bytes × Bool) × List Bytes
unfolding capture_line is_silent drop_last_cr
read_child_line chunks =
    let c = capture_line [] false chunks in
    if is_silent chunks then (none, chunks) else (
      some (
        if c.reached_line_end && not c.truncated then drop_last_cr c.captured else c.captured,
        c.truncated,
      ),
      c.rest,
    )
