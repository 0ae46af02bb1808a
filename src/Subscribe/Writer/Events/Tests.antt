-- ===== src/Subscribe/Writer/Events/Tests.antt =====
-- A stream that takes a Mutate with an add, and one without, which is answered at once.
use xmtp_node_go.Base.{List, [], erase, err, false, lookup, none, ok, refl, some, ℕ, ◌+◌, ◌∷◌, ◌≡◌}
use xmtp_node_go.Topic.{split_topic}
use xmtp_node_go.Subscribe.Writer.{
  Settings, queued, Writer, new_writer, send, is_catching_up, put_wave,
}
use xmtp_node_go.Subscribe.Writer.Waves.{completes, waves_of}
use xmtp_node_go.Subscribe.Writer.Mutate.{handle_mutate}
use xmtp_node_go.Subscribe.Writer.Events.{Event, serve, run, handle}
use xmtp_node_go.Subscribe.Writer.Events.Answers.{asked_all, serve_answers}

abbrev example_settings : Settings
example_settings = record {
  max_frame_bytes = 100;
  max_pending_bytes = 100;
  max_mutate_adds = 10;
  ping_interval = 30000000000;
  pong_deadline = 10000000000;
  link = λ n. queued;
  get_group_message_from_envelope =
      λ env. some (record { id = env.timestamp_ns; group_id = 5 ∷ []; body = env.message });
  get_welcome_message_from_envelope = λ env. none;
}

abbrev example_events : List (Event × ℕ)
example_events =
    (
      Event.mutate (record {
        mutate_id = 7;
        history_only = false;
        adds = record { topic = 0 ∷ 5 ∷ []; id_cursor = 3 } ∷ [];
        removes = [];
      }),
      1,
    )
    ∷ (Event.mutate (record { mutate_id = 8; history_only = false; adds = []; removes = [] }), 4)
    ∷ []

abbrev example_writer : Writer
example_writer = elim (serve example_settings 0 example_events) [ ok w ↦ w | err e ↦ new_writer 0 ]

example_writer_up : serve example_settings 0 example_events ≡ ok example_writer
unfolding serve run handle send handle_mutate new_writer split_topic is_catching_up lookup put_wave
    erase
example_writer_up = refl

serve_answers_example :
    completes 7 example_writer.handed + waves_of 7 example_writer.waves ≡ asked_all 7 example_events
serve_answers_example =
    serve_answers example_settings 7 0 example_events example_writer example_writer_up
