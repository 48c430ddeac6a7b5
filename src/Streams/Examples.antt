-- ===== src/Streams/Examples.antt =====
-- The theorem about hive-server-go/stream.go at one subscriber of one job.
use ollama_local_hives_clust.Prelude.{◌≡◌, refl, false, none, [], ◌∷◌, lookup, insert}
use ollama_local_hives_clust.Streams.{
  JobEvent, Channel, JobStream, new_job_stream, subscribe, unsubscribe, publish_send, publish_read,
  append_slice,
}
use ollama_local_hives_clust.Streams.Race.{publish_send-unsubscribe}

abbrev event : JobEvent
event = record { job_id = "j"; status = "completed"; error = "" }

abbrev quiet : Channel
quiet = record { events = []; closed = false }

abbrev followed : JobStream
followed = (subscribe 3 "j" new_job_stream).1

publish_send-unsubscribe_example :
    publish_send (record { array = 0; len = 1 }) 0 1 event (unsubscribe "j" 0 followed) ≡ none
unfolding subscribe new_job_stream lookup insert append_slice publish_read
publish_send-unsubscribe_example =
    publish_send-unsubscribe "j" event 0 0 (0 ∷ 0 ∷ 0 ∷ []) quiet followed refl refl refl
