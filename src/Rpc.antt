-- ===== src/Rpc.antt =====
-- src/rpc.rs: the bounded reader of HTTP replies and the check of the JSON-RPC envelope. The socket is
-- the bytes that the peer sends, and how they end: the peer closes, or reading fails (the deadline of
-- `DeadlineStream` is such a failure).
pub mod Bounds
pub mod Ends
use xus_miner.Common.{
  ℕ, zero, suc, ◌+◌, ◌-◌, ◌*◌, min, Bool, true, false, ◌&&◌, ◌||◌, not, List, [], ◌∷◌, ◌++◌, Option,
  none, some, ltb, leb, ◌==◌, if◌then◌else◌, length, take, drop, all, any, Str, str_eq, codes, trim,
  is_empty, as_bytes, parse_u64, Result, ok, err, ok_or, ensure, is_some,
}
use xus_miner.Common
use xus_miner.Common.Try.{◌>>=◌, ◌>>◌}
use xus_miner.Common.Chars.{
  split_once, is_ascii_digit, is_ascii_alphanumeric, is_ascii_control, eq_ignore_ascii_case,
  from_utf8,
}
use xus_miner.Common.Json.{Json}
use xus_miner.Job.{Bytes, max_blob_bytes}

abbrev pub max_header_bytes : ℕ
max_header_bytes = 32 * 1024

abbrev pub max_body_bytes : ℕ
max_body_bytes = max_blob_bytes * 2 + 256 * 1024

pub record Stream : Type 0 where
  pub bytes : Bytes
  -- The error with which reading ends; `none` is the end of the stream.
  pub failure : Option Str

pub data RpcError : Type 0 where
  io http_status : Str → RpcError
  unexpected_eof header_limit incomplete_headers non_utf8 malformed_status : RpcError
  malformed_header bad_length body_limit transfer_encoding content_encoding : RpcError
  bad_json bad_envelope failed no_result deadline_exceeded : RpcError

-- `take(limit).read_until(b'\n')`: the line with its newline, if that was found, and the rest.
unfoldable pub split_line : ℕ → Bytes → Bytes × Bytes
split_line zero bs = ([], bs)
split_line (suc limit) [] = ([], [])
split_line (suc limit) (b ∷ bs) =
    let (line, rest) = split_line limit bs in if b == b'\n' then (b ∷ [], bs) else (b ∷ line, rest)

-- A reader that wants more than the peer has sent meets the end of the stream.
unfoldable pub at_end : Stream → Result RpcError (Unit {0})
at_end s = elim s.failure [ none ↦ ok tt | some e ↦ err (RpcError.io e) ]

-- `ends_with(b"\r\n")`, and the line without it.
unfoldable pub strip_crlf : Bytes → Option Bytes
strip_crlf [] = none
strip_crlf (b ∷ []) = none
strip_crlf (b ∷ c ∷ []) = if b == b'\r' && c == b'\n' then some [] else none
strip_crlf (b ∷ c ∷ d ∷ bs) = elim (strip_crlf (c ∷ d ∷ bs)) [
  | none ↦ none
  | some line ↦ some (b ∷ line)
]

ends_newline : Bytes → Bool
ends_newline [] = false
ends_newline (b ∷ []) = b == b'\n'
ends_newline (b ∷ c ∷ bs) = ends_newline (c ∷ bs)

pub record HeaderLine : Type 0 where
  pub text : Str
  pub used : ℕ
  pub rest : Stream

unfoldable pub header_line : Stream → ℕ → Result RpcError HeaderLine
unfolding split_line at_end strip_crlf ends_newline
header_line s used = do
  let limit = max_header_bytes - used + 1
  let line = (split_line limit s.bytes).0
  if ends_newline line || length line == limit then ok tt else at_end s
  ensure (leb (used + length line) max_header_bytes) RpcError.header_limit
  stripped ← ok_or (strip_crlf line) RpcError.incomplete_headers
  text ← ok_or (from_utf8 stripped) RpcError.non_utf8
  ok (record {
    text = text;
    used = used + length line;
    rest = record s { bytes = (split_line limit s.bytes).1 };
  })

-- The first two parts of `splitn(3, ' ')`, empty where they are missing.
before_space : Str → Str
before_space s = elim (split_once b' ' s) [ none ↦ s | some (before, behind) ↦ before ]

behind_space : Str → Str
behind_space s = elim (split_once b' ' s) [ none ↦ [] | some (before, behind) ↦ behind ]

starts_with_two : Str → Bool
starts_with_two [] = false
starts_with_two (c ∷ s) = c == b'2'

unfoldable pub check_status : Str → Result RpcError (Unit {0})
unfolding before_space behind_space starts_with_two
check_status line = do
  let version = before_space line
  let code = before_space (behind_space line)
  ensure
      ((str_eq version (codes "HTTP/1.0") || str_eq version (codes "HTTP/1.1"))
        && length (as_bytes code) == 3
        && all is_ascii_digit (as_bytes code))
      RpcError.malformed_status
  ensure (starts_with_two code) (RpcError.http_status code)
  ok tt

is_token_byte : ℕ → Bool
is_token_byte b = is_ascii_alphanumeric b || any (λ c. b == c) (codes "!#$%&'*+-.^_`|~")

is_refused_byte : ℕ → Bool
is_refused_byte b = is_ascii_control b && not (b == b'\t')

is_bad_length : Option ℕ → Str → Bool
is_bad_length content_length value =
    is_some content_length || is_empty value || not (all is_ascii_digit (as_bytes value))

read_length : Option ℕ → Str → Result RpcError (Option ℕ)
unfolding is_bad_length
read_length content_length value = do
  ensure (not (is_bad_length content_length value)) RpcError.bad_length
  n ← ok_or (parse_u64 value) RpcError.bad_length
  ensure (leb n max_body_bytes) RpcError.body_limit
  ok (some n)

named_field : Option ℕ → Str → Str → Result RpcError (Option ℕ)
unfolding read_length
named_field content_length name value =
    if eq_ignore_ascii_case name (codes "content-length")
    then read_length content_length value
    else if eq_ignore_ascii_case name (codes "transfer-encoding")
    then err RpcError.transfer_encoding
    else if eq_ignore_ascii_case name (codes "content-encoding")
        && not (eq_ignore_ascii_case value (codes "identity"))
    then err RpcError.content_encoding
    else ok content_length

is_malformed : Str → Str → Bool
unfolding is_token_byte is_refused_byte
is_malformed name value =
    is_empty name || not (all is_token_byte (as_bytes name)) || any is_refused_byte (as_bytes value)

-- One header, with the length that is known so far.
unfoldable pub header_field : Option ℕ → Str → Result RpcError (Option ℕ)
unfolding named_field is_malformed
header_field content_length line = do
  parts ← ok_or (split_once b':' line) RpcError.malformed_header
  ensure (not (is_malformed parts.0 parts.1)) RpcError.malformed_header
  named_field content_length parts.0 (trim parts.1)

pub record Headers : Type 0 where
  pub content_length : Option ℕ
  pub rest : Stream

-- A step of a loop on fuel: an error ends it.
abbrev pub on_ok :
    {A B : Type 0}
    → Result RpcError A
    → (A → Option (Result RpcError B))
    → Option (Result RpcError B)
on_ok (err e) next = some (err e)
on_ok (ok a) next = next a

-- The loop over the headers; `none` means that the fuel ran out.
unfoldable pub read_headers : ℕ → Stream → ℕ → Option ℕ → Option (Result RpcError Headers)
unfolding header_line header_field
read_headers zero s used content_length = none
read_headers (suc fuel) s used content_length = on_ok (header_line s used) (λ line.
    if is_empty line.text
    then some (ok (record { content_length = content_length; rest = line.rest }))
    else on_ok (header_field content_length line.text)
        (λ found. read_headers fuel line.rest line.used found))

-- `read_exact`, or `read_to_end` with one byte more than is allowed.
unfoldable pub read_body : Option ℕ → Stream → Result RpcError Bytes
unfolding at_end
read_body (some n) s =
    if leb n (length s.bytes)
    then ok (take n s.bytes)
    else elim s.failure [ none ↦ err RpcError.unexpected_eof | some e ↦ err (RpcError.io e) ]
read_body none s = do
  let body = take (max_body_bytes + 1) s.bytes
  if length body == max_body_bytes + 1 then ok tt else at_end s
  ensure (leb (length body) max_body_bytes) RpcError.body_limit
  ok body

first_line : Stream → Result RpcError HeaderLine
unfolding header_line check_status
first_line s = do line ← header_line s 0; check_status line.text; ok line

finish_reply : Option (Result RpcError Headers) → Option (Result RpcError Bytes)
unfolding read_body
finish_reply none = none
finish_reply (some headers) = some (headers >>= λ h. read_body h.content_length h.rest)

-- Every header line takes a byte of the budget, so the budget is fuel enough.
unfoldable pub read_response : Stream → Option (Result RpcError Bytes)
unfolding first_line read_headers finish_reply
read_response s =
    on_ok (first_line s)
      (λ line. finish_reply (read_headers (max_header_bytes + 1) line.rest line.used none))

-- `DeadlineStream` reads under the time that remains of the deadline.
pub remaining : (deadline now : ℕ) → Option ℕ
remaining deadline now = if ltb now deadline then some (deadline - now) else none

module _ (J : Json) (from_slice : Bytes → Option (Json.Value J)) where
  open J use {Value, field?, as_str, as_u64, is_null}

  is_envelope : Value → Bool
  is_envelope v =
      elim (Common.◌>>=◌ (field? v (codes "jsonrpc")) as_str) [
        | none ↦ false
        | some version ↦ str_eq version (codes "2.0")
      ]
      && elim (Common.◌>>=◌ (field? v (codes "id")) as_u64) [ none ↦ false | some id ↦ id == 1 ]

  has_error : Value → Bool
  has_error v = elim (field? v (codes "error")) [ none ↦ false | some e ↦ not (is_null e) ]

  pub decode_reply : Bytes → Result RpcError Value
  unfolding is_envelope has_error
  decode_reply body = do
    v ← ok_or (from_slice body) RpcError.bad_json
    ensure (is_envelope v) RpcError.bad_envelope
    ensure (not (has_error v)) RpcError.failed
    ok_or (field? v (codes "result")) RpcError.no_result

  -- What a reply decodes to, if the deadline has not passed behind it.
  in_time : ℕ → ℕ → Option (Result RpcError Bytes) → Option (Result RpcError Value)
  unfolding remaining decode_reply
  in_time deadline now none = none
  in_time deadline now (some reply) = some (do
    body ← reply
    _ ← ok_or (remaining deadline now) RpcError.deadline_exceeded
    decode_reply body)

  -- `connect` gets the time that is left, and stands for the connection with the request written; the
  -- clock is read at the start, at the connection, and behind the reply.
  pub call : ℕ → (ℕ → ℕ) → (ℕ → Result RpcError Stream) → Option (Result RpcError Value)
  unfolding remaining read_response in_time
  call timeout clock connect =
      let deadline = clock 0 + timeout in
      on_ok (ok_or (remaining deadline (clock 1)) RpcError.deadline_exceeded) (λ budget.
        on_ok (connect budget) (λ stream. in_time deadline (clock 2) (read_response stream)))
