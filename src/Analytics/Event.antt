-- ===== src/Analytics/Event.antt =====
-- internal/analytics/analytics.go: the closed vocabulary of lifecycle events, and their insertion
-- into the append-only table. The durations of the callers are not negative.
use Prim.Native.String.{len}
use mailproof.Base.{
  ℕ, ◌+◌, max, String, Bool, false, ◌&&◌, ◌||◌, not, ltb, List, [], ◌∷◌, ◌++◌, if◌then◌else◌,
  str_eq, is_empty, join, unix, any_row,
}
use mailproof.Database.{
  Tx, Result, ok, err, EventRow, invalid_event, invalid_dimension, invalid_duration,
}

pub record Dimensions : Type 0 where
  pub policy_version : String
  pub stage : String
  pub reason : String
  pub queue : String
  pub worker : String
  pub analyzer : String
  pub state : String

abbrev pub no_dimensions : Dimensions
no_dimensions = record {
  policy_version = "";
  stage = "";
  reason = "";
  queue = "";
  worker = "";
  analyzer = "";
  state = "";
}

pub record Event : Type 0 where
  pub producer : String
  pub source_type : String
  pub source_id : String
  pub event_type : String
  pub outcome : String
  pub occurred_at : ℕ
  pub duration_ms : ℕ
  pub dimensions : Dimensions

member : String → List String → Bool
member v [] = false
member v (x ∷ xs) = str_eq v x || member v xs

-- The `valid` of Dimensions.key: an absent dimension, or a word of its vocabulary.
in_vocabulary : String → List String → Bool
unfolding member
in_vocabulary v words = is_empty v || member v words

valid_dimensions : Dimensions → Bool
unfolding in_vocabulary
valid_dimensions d =
    in_vocabulary d.policy_version ("v1" ∷ [])
    && in_vocabulary d.stage ("admission" ∷ "quota" ∷ "post_data" ∷ "subject_preflight" ∷ [])
    && in_vocabulary d.reason (
        "admitted" ∷ "rejected" ∷ "deferred" ∷ "quota_exceeded" ∷ "wrapper_sender_invalid"
        ∷ "selected_subject_ambiguous" ∷ "selected_subject_sender_denied" ∷ "analysis_dead"
        ∷ "report_dead" ∷ [])
    && in_vocabulary d.queue ("analysis" ∷ "report" ∷ [])
    && in_vocabulary d.worker ("analysis" ∷ "report" ∷ [])
    && in_vocabulary d.analyzer ("rspamd" ∷ "subject-selection" ∷ [])
    && in_vocabulary d.state (
        "queued" ∷ "analysis_leased" ∷ "report_pending" ∷ "report_leased" ∷ "complete"
        ∷ "reply_suppressed" ∷ "analysis_dead" ∷ "report_dead" ∷ "started" ∷ "accepted" ∷ "failed"
        ∷ "unknown" ∷ "pending" ∷ [])

json_field : String → String → String
json_field name value = join "\"" (join name (join "\":\"" (join value "\"")))

-- json.Marshal of dimensions whose words need no escape.
unfoldable pub dimensions_json : Dimensions → String
unfolding json_field
dimensions_json d = join "{" (
    join (json_field "PolicyVersion" d.policy_version) (
      join "," (
        join (json_field "Stage" d.stage) (
          join "," (
            join (json_field "Reason" d.reason) (
              join "," (
                join (json_field "Queue" d.queue) (
                  join "," (
                    join (json_field "Worker" d.worker) (
                      join "," (
                        join (json_field "Analyzer" d.analyzer)
                          (join "," (join (json_field "State" d.state) "}")))))))))))))

unfoldable pub key : Dimensions → Result String
unfolding valid_dimensions dimensions_json
key d = if valid_dimensions d then ok (dimensions_json d) else err invalid_dimension

pub allowed : String → String → String → String → Bool
allowed producer source_type event_type outcome =
    (str_eq source_type "run" || str_eq source_type "delivery" || str_eq source_type "decision")
    && not (is_empty outcome || ltb 64 (len outcome))
    && (if str_eq producer "collector"
        then str_eq event_type "subject_preflight"
        else if str_eq producer "queue"
        then str_eq event_type "run_started" || str_eq event_type "run_lifecycle"
        else if str_eq producer "admission"
        then str_eq event_type "admission_decision"
        else if str_eq producer "worker"
        then str_eq event_type "run_completed" || str_eq event_type "analyzer_observation"
        else if str_eq producer "reporter"
        then str_eq event_type "report_delivery_state"
          || str_eq event_type "rejection_delivery_state"
        else false)

unfoldable pub new_lifecycle : String → String → String → String → String → ℕ → Result Event
unfolding allowed
new_lifecycle producer source_type source_id event_type outcome occurred_at =
    if is_empty producer
      || is_empty source_id
      || not (allowed producer source_type event_type outcome)
    then err invalid_event
    else ok (record {
      producer = producer;
      source_type = source_type;
      source_id = source_id;
      event_type = event_type;
      outcome = outcome;
      occurred_at = occurred_at;
      duration_ms = 0;
      dimensions = no_dimensions;
    })

-- The UNIQUE key of the table, less the schema version.
pub same_source : EventRow → EventRow → Bool
same_source a b =
    str_eq a.producer b.producer
    && str_eq a.source_type b.source_type
    && str_eq a.source_id b.source_id
    && str_eq a.event_type b.event_type

unfoldable pub last_id : List EventRow → ℕ
last_id [] = 0
last_id (e ∷ es) = max e.event_id (last_id es)

-- INSERT … ON CONFLICT DO NOTHING; the key of a new row is one more than the largest.
unfoldable pub append_event : EventRow → List EventRow → List EventRow
unfolding same_source last_id
append_event row rows =
    if any_row (same_source row) rows
    then rows
    else rows ++ (record row { event_id = last_id rows + 1 } ∷ [])

abbrev pub event_row : Event → String → EventRow
event_row e dimension_key = record {
  event_id = 0;
  producer = e.producer;
  source_type = e.source_type;
  source_id = e.source_id;
  event_type = e.event_type;
  occurred_at = unix e.occurred_at;
  outcome = e.outcome;
  dimension_key = dimension_key;
  duration_ms = e.duration_ms;
}

-- InsertTx.
unfoldable pub insert_event : Event → Tx (Unit {0})
insert_event e db = elim (key e.dimensions) [
  | err x ↦ err x
  | ok dimension_key ↦
      if ltb 86400000 e.duration_ms
      then err invalid_duration
      else ok (tt, record db { events = append_event (event_row e dimension_key) db.events })
]
