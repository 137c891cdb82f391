-- ===== src/Examples/Net.antt =====
-- Tests of src/rpc.rs: replies as a node sends them.
use xus_miner.Common.{[], ◌∷◌, ◌≡◌, refl, ◌++◌, none, some, codes, err}
use xus_miner.Common.{as_bytes, is_empty, str_eq, trim, parse_u64}
use xus_miner.Common.Chars.{
  from_utf8, split_once, eq_ignore_ascii_case, is_ascii_digit, is_ascii_alphanumeric,
  is_ascii_control,
}
use xus_miner.Job.{Bytes}
use xus_miner.Rpc.{Stream, RpcError, read_response}
use xus_miner.Rpc.Ends.{Answers, read_response-Answers}

abbrev crlf : Bytes
crlf = 13 ∷ 10 ∷ []

abbrev sample_stream : Stream
sample_stream = record {
  bytes =
      codes "HTTP/1.1 200 OK"
      ++ crlf
      ++ codes "Content-Length: 2"
      ++ crlf
      ++ crlf
      ++ codes "{}more";
  failure = none;
}

chunked_reply :
    read_response (record {
      bytes = codes "HTTP/1.1 200 OK" ++ crlf ++ codes "transfer-encoding: chunked" ++ crlf ++ crlf;
      failure = none;
    })
    ≡ some (err RpcError.transfer_encoding)
unfolding read_response from_utf8 str_eq split_once eq_ignore_ascii_case is_ascii_digit
    is_ascii_alphanumeric is_ascii_control trim parse_u64 as_bytes is_empty
chunked_reply = refl

read_response-Answers_example : Answers (read_response sample_stream)
read_response-Answers_example = read_response-Answers sample_stream
