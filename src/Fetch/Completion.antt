-- ===== src/Fetch/Completion.antt =====
-- When a chat completion has nothing to deliver: `isEmptyCompletion`, src/providers/stream-check.ts,
-- and `unwrapEnvelopedData`, src/providers/fetch.ts.
use msrouter.Prelude.{Bool, true, false, not, ◌&&◌, ◌||◌, Option, none, some, if◌then◌else◌, text}
use msrouter.Json.{
  Json, array, Items, nil, cons, truthy?, is_object, is_object?, prop, prop?, is_filled_string,
  is_filled_array, is_array, is_text,
}

-- a choice for which the loop returns: it has text, or calls tools, or stopped of its own accord
unfoldable pub delivers : Json → Bool
delivers c =
    let message = prop (text "message") c in
    is_object? message
    && (is_filled_string (prop? (text "content") message)
        || is_filled_array (prop? (text "tool_calls") message)
        || is_text (text "stop") (prop (text "finish_reason") c))

-- the loop over the choices
unfoldable pub empty_choices : Items → Bool
unfolding delivers
empty_choices nil = true
empty_choices (cons c cs) = let rest = empty_choices cs in if delivers c then false else rest

abbrev pub empty_list : Option Json → Bool
unfolding empty_choices
empty_list (some (array cs)) = empty_choices cs
empty_list _ = false

unfoldable pub is_empty_completion : Json → Bool
unfolding empty_choices
is_empty_completion json =
    if not (is_object json)
    then false
    else if truthy? (prop (text "error") json)
    then false
    else empty_list (prop (text "choices") json)

-- what is served in place of an envelope
unfoldable pub unwrap_enveloped_data : Json → Bool → Option Json
unwrap_enveloped_data json enabled =
    if not enabled || not (is_object json) then none else inner (prop (text "data") json)
  where
    inner : Option Json → Option Json
    inner none = none
    inner (some data') =
        if is_object data' && is_array (prop (text "choices") data') then some data' else none
