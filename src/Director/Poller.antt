-- ===== src/Director/Poller.antt =====
-- The poller of Slack: `SlackPoller`, src/director/slack-poller.ts, with its timer, its requests and
-- the drains as steps, and the direct poll of `pollSlackMessages`, src/director/surface.ts. What a
-- request is answered with is an argument: the value of its body, `none` where it fails.
use msrouter.Prelude.{
  Bool, true, false, not, ◌&&◌, ◌||◌, Option, none, some, List, [], ◌∷◌, ◌++◌, map, if◌then◌else◌,
  Text, text, is_set,
}
use msrouter.Json.{Json, null, array, Items, nil, cons, prop, truthy?, is_filled_string, string?}
use msrouter.Director.Outbox.{Ruling, decisions_of}
use msrouter.Director.Overrides.{text_leb}

pub record SlackMessage : Type 0 where
  pub content : Text
  pub ts : Text
  pub user : Option Json

pub record Poller : Type 0 where
  pub queue : List SlackMessage
  pub last_ts : Option Text
  pub busy : Bool

-- `a > b` of texts
abbrev is_after : Text → Text → Bool
is_after a b = not (text_leb a b)

-- the later of the two times, where an absent or empty one is before all others
abbrev pub newer : Text → Option Text → Option Text
newer ts none = some ts
newer ts (some last) = if not (is_set last) || is_after ts last then some ts else some last

abbrev text_if : Option Text → Text
text_if none = []
text_if (some s) = s

-- a message that has a text and a time
abbrev pub received : Json → Option SlackMessage
received msg =
    if is_filled_string (prop (text "ts") msg) && is_filled_string (prop (text "text") msg)
    then some (record {
      content = text_if (string? (prop (text "text") msg));
      ts = text_if (string? (prop (text "ts") msg));
      user = prop (text "user") msg;
    })
    else none

abbrev pub push : Option SlackMessage → Poller → Poller
push none p = p
push (some x) p = record p { queue = p.queue ++ x ∷ []; last_ts = newer x.ts p.last_ts }

-- the loop over the messages, which a null ends
unfoldable pub take_messages : Items → Poller → Poller
take_messages nil p = p
take_messages (cons null msgs) p = p
take_messages (cons msg msgs) p = take_messages msgs (push (received msg) p)

abbrev messages_in : Option Json → Poller → Poller
messages_in (some (array msgs)) p = take_messages msgs p
messages_in _ p = p

abbrev pub answered_with : Option Json → Poller → Poller
answered_with none p = p
answered_with (some v) p =
    if truthy? (prop (text "ok") v) then messages_in (prop (text "messages") v) p else p

-- what happens to a poller: its timer fires, a request is answered, the queue is drained, or the time
-- to start from is set
pub data Event : Type 0 where
  timer : Event
  reply : Option Json → Event
  drain : Event
  restore : Option Text → Event

-- `poll` up to its request, the rest of `poll`, `drain`, and `setLastTs`
unfoldable pub happen : Event → Poller → Poller
happen timer p = record p { busy = true }
happen (reply r) p = if p.busy then record (answered_with r p) { busy = false } else p
happen drain p = record p { queue = [] }
happen (restore ts) p = record p { last_ts = ts }

-- `pollSlackMessages` with a poller: its queue is drained
unfoldable pub poll_drained : Poller → (List (Text × Ruling) × Option Text) × Poller
poll_drained p = ((decisions_of (map (λ x. x.content) p.queue), p.last_ts), happen drain p)

abbrev after_message : Option SlackMessage → List Text × Option Text → List Text × Option Text
after_message none r = r
after_message (some x) (seen, last) = (seen ++ x.content ∷ [], newer x.ts last)

-- the loop over the messages of the direct request, `none` where a null makes it throw
unfoldable pub read_messages : Items → List Text × Option Text → Option (List Text × Option Text)
read_messages nil r = some r
read_messages (cons null msgs) r = none
read_messages (cons msg msgs) r = read_messages msgs (after_message (received msg) r)

abbrev decided_by :
    Option Text → Option (List Text × Option Text) → List (Text × Ruling) × Option Text
decided_by last none = ([], last)
decided_by last (some (seen, newest)) = (decisions_of seen, newest)

abbrev decided_in : Option Text → Option Json → List (Text × Ruling) × Option Text
decided_in last (some (array msgs)) = decided_by last (read_messages msgs ([], last))
decided_in last _ = ([], last)

-- and without one: one request, if there are credentials
unfoldable pub poll_directly :
    (credentials : Bool) → Option Text → Option Json → List (Text × Ruling) × Option Text
poll_directly false last r = ([], last)
poll_directly true last none = ([], last)
poll_directly true last (some v) =
    if truthy? (prop (text "ok") v) then decided_in last (prop (text "messages") v) else ([], last)

-- What a drain returns.
abbrev pub drained : Event → Poller → List SlackMessage
drained drain p = p.queue
drained _ p = []

-- The messages that a reply brings, in their order.
abbrev cons_message : Option SlackMessage → List SlackMessage → List SlackMessage
cons_message none xs = xs
cons_message (some x) xs = x ∷ xs

abbrev pub listed_messages : Items → List SlackMessage
listed_messages nil = []
listed_messages (cons null msgs) = []
listed_messages (cons msg msgs) = cons_message (received msg) (listed_messages msgs)

abbrev brought_by : Option Json → List SlackMessage
brought_by (some (array msgs)) = listed_messages msgs
brought_by _ = []

abbrev brought_in : Option Json → List SlackMessage
brought_in none = []
brought_in (some v) =
    if truthy? (prop (text "ok") v) then brought_by (prop (text "messages") v) else []

abbrev pub brought : Event → Poller → List SlackMessage
brought (reply r) p = if p.busy then brought_in r else []
brought _ p = []

unfoldable pub run_events : List Event → Poller → Poller
run_events [] p = p
run_events (e ∷ es) p = run_events es (happen e p)

-- All that the drains of a run return, and all that its replies bring.
unfoldable pub drained_in : List Event → Poller → List SlackMessage
drained_in [] p = []
drained_in (e ∷ es) p = drained e p ++ drained_in es (happen e p)

unfoldable pub brought_over : List Event → Poller → List SlackMessage
brought_over [] p = []
brought_over (e ∷ es) p = brought e p ++ brought_over es (happen e p)
