-- ===== src/Conntrack/Decode/Events.antt =====
-- What a buffer of events does to the table of flows (bandix-plus/src/conntrack.rs).
use bandix_plus_lite.Base.{
  ℕ, ◌+◌, ◌%◌, ◌^◌, List, [], ◌∷◌, Option, some, none, Bool, true, false, ◌==◌, ◌!=◌, ◌&&◌, ◌||◌,
  leb, if◌then◌else◌, length, take, Result, ok, err, ◌>>=◌,
}
use bandix_plus_lite.Conntrack.Netlink.{ByteOrder, Item}
use bandix_plus_lite.Conntrack.Flows.{insert_flow, remove_flow}
use bandix_plus_lite.Conntrack.Flows.Table.{
  FlowsAreBounded, insert_flow-FlowsAreBounded, remove_flow-FlowsAreBounded,
}
use bandix_plus_lite.Conntrack.Decode.{
  flow_key_eq, FlowError, overrun, event_error, Parsed, FlowTable, messages, parse_flow_message,
  apply_event, event_body, after_event, apply_events, apply_event_messages,
}

module _ (order : ByteOrder) where
  apply_event-FlowsAreBounded :
      (kind : ℕ) (flow : Option Parsed) (s : FlowTable order)
      → FlowsAreBounded s
      → FlowsAreBounded (apply_event order kind flow s)
  apply_event-FlowsAreBounded kind none s h = h
  apply_event-FlowsAreBounded kind (some flow) s h = pick (kind % 2 ^ 8 == 2) (kind % 2 ^ 8 == 0)
    where
      pick :
          (t u : Bool)
          → FlowsAreBounded (if t then remove_flow s flow else if u then insert_flow s flow else s)
      pick true u = remove_flow-FlowsAreBounded s flow h
      pick false true = insert_flow-FlowsAreBounded s flow h
      pick false false = h

  -- What the body leaves, if it does not fail.
  abbrev IsBoundedResult : Result FlowError (FlowTable order) → Type 0
  IsBoundedResult (err e) = Unit {0}
  IsBoundedResult (ok s) = FlowsAreBounded s

  event_body-FlowsAreBounded :
      (kind : ℕ) (payload : List ℕ) (s : FlowTable order)
      → FlowsAreBounded s
      → IsBoundedResult (event_body order kind payload s)
  unfolding event_body
  event_body-FlowsAreBounded kind payload s h =
      pick (kind == 1 || kind == 3) (kind == 4) (kind == 2)
        (leb 4 (length payload) && order.from_ne_bytes (take 4 payload) != 0)
    where
      applied :
          (r : Result FlowError (Option Parsed))
          → IsBoundedResult (r >>= (λ flow. ok (apply_event order kind flow s)))
      applied (err e) = tt
      applied (ok flow) = apply_event-FlowsAreBounded kind flow s h

      pick :
          (t u v w : Bool)
          → IsBoundedResult (
              if t
              then ok s
              else if u
              then err overrun
              else if v
              then (if w then err (event_error (order.from_ne_bytes (take 4 payload))) else ok s)
              else (parse_flow_message order payload
                  >>= (λ flow. ok (apply_event order kind flow s))))
      pick true u v w = h
      pick false true v w = tt
      pick false false true true = tt
      pick false false true false = h
      pick false false false w = applied (parse_flow_message order payload)

  apply_events-FlowsAreBounded :
      (items : List Item) (s : FlowTable order)
      → FlowsAreBounded s
      → FlowsAreBounded (apply_events order items s).0
  unfolding apply_events
  apply_events-FlowsAreBounded [] s h = h
  apply_events-FlowsAreBounded (err e ∷ items) s h = h
  apply_events-FlowsAreBounded (ok (kind, payload) ∷ items) s h =
      after (event_body order kind payload s) (event_body-FlowsAreBounded kind payload s h)
        (λ s' h'. apply_events-FlowsAreBounded items s' h')
    where
      after :
          (r : Result FlowError (FlowTable order))
          → IsBoundedResult r
          → ((s' : FlowTable order)
              → FlowsAreBounded s'
              → FlowsAreBounded (apply_events order items s').0)
          → FlowsAreBounded (after_event order s r (apply_events order items)).0
      after (err e) b more = h
      after (ok s') b more = more s' b

  -- Whatever bytes the event socket delivers, the table of flows never grows beyond
  -- MAX_TRACKED_FLOWS, also when an error in the middle of the buffer ends the loop, if it was
  -- within it at first.
  pub apply_event_messages-FlowsAreBounded :
      (buffer : List ℕ) (s : FlowTable order)
      → FlowsAreBounded s
      → FlowsAreBounded (apply_event_messages order buffer s).0
  unfolding apply_event_messages
  apply_event_messages-FlowsAreBounded buffer s h =
      apply_events-FlowsAreBounded (messages order (length buffer + 1) buffer 0) s h
