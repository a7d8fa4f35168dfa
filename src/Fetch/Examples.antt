-- ===== src/Fetch/Examples.antt =====
-- Tests of upstream answers: src/providers/fetch.ts, src/providers/stream-check.ts. The parser knows
-- three bodies.
use msrouter.Prelude.{
  ◌≡◌, ◌↔◌, refl, Option, none, some, [], ◌∷◌, ◌++◌, ◌==◌, text_eq, if◌then◌else◌, Text, text,
}
use msrouter.Json.{Json, string, array, object, nil, cons, end, field}
use msrouter.Fetch.Stream.{Stream, all_bytes, passed, check_stream_content}
use msrouter.Fetch.Delivering.{DeliversFrom, check_stream_content_lem}
use msrouter.Fetch.Post.{Reply, Response, text_body, Platform, error_text}

-- {"choices":[{"message":{"content":"hi"}}]}
abbrev full : Json
full = object (
    field (text "choices")
      (array (
        cons
          (object
            (field (text "message") (object (field (text "content") (string (text "hi")) end)) end))
          nil))
      end)

-- {"error":{"message":{}}}
abbrev odd_error : Json
odd_error = object (field (text "error") (object (field (text "message") (object end) end)) end)

-- {"choices":[{"delta":{"content":"a"}}]}
abbrev delta : Json
delta = object (
    field (text "choices")
      (array (
        cons
          (object
            (field (text "delta") (object (field (text "content") (string (text "a")) end)) end))
          nil))
      end)

abbrev test_parse : Text → Option Json
test_parse s =
    if s == text "full"
    then some full
    else if s == text "odd"
    then some odd_error
    else if s == text "d"
    then some delta
    else none

abbrev platform : Platform
platform = record {
  parse = test_parse;
  stringify = λ j. text "json";
  truncated_value = λ j. none;
  null_body_error = text "null body";
}

abbrev reply : Text → Option Stream → Reply
reply content s = record { status = 200; headers = []; content = content; stream = s }

abbrev two_chunks : Stream
two_chunks = record {
  chunks =
      record { bytes = 1 ∷ 2 ∷ []; decoded = text "data: " }
      ∷ record { bytes = 3 ∷ []; decoded = text "d" ++ (10 ∷ 10 ∷ []) }
      ∷ record { bytes = 4 ∷ []; decoded = text "x" }
      ∷ [];
  broken = none;
}

two_chunks-passes : check_stream_content test_parse (some two_chunks) ≡ passed (1 ∷ 2 ∷ 3 ∷ 4 ∷ [])
unfolding check_stream_content
two_chunks-passes = refl

check_stream_content_lem_example :
    (check_stream_content test_parse (some two_chunks) ≡ passed (1 ∷ 2 ∷ 3 ∷ 4 ∷ [])) ↔ (
      DeliversFrom test_parse [] two_chunks.chunks
      × ((1 ∷ 2 ∷ 3 ∷ 4 ∷ []) ≡ all_bytes test_parse two_chunks.chunks))
check_stream_content_lem_example =
    check_stream_content_lem test_parse two_chunks (1 ∷ 2 ∷ 3 ∷ 4 ∷ [])

abbrev full_response : Response
full_response = record { status = 200; headers = []; body = text_body (text "full") }

abbrev no_name : Option Text
no_name = none

odd-unreadable : error_text platform (object (field (text "message") (object end) end)) ≡ none
unfolding error_text
odd-unreadable = refl
