-- ===== src/Jobs/Metrics.antt =====
-- The token counts that hive-server-go/queue.go reads from the result of a job.
use ollama_local_hives_clust.Prelude.{
  ℕ, ◌≡◌, refl, ap, String, Option, none, some, Bool-cases, Option-cases, inl, inr, ℤ, add64, ◌⊎◌,
  subst, true,
}
use ollama_local_hives_clust.Jobs.{
  Json, Fields, null_value, bool_value, number_value, text_value, array_value, text_maps,
  object_value, Job, job_completed, job_failed, get_field, as_object, is_uncounted, with_counts,
  with_usage, parse_token_metrics, new_job,
}
use ollama_local_hives_clust.Jobs.Calls.{
  OllamaCall, CallResult, call_failed, call_answered, JsonReader, is_generic, has_counts, call_of,
  perform, extract_json_from_response, generic_result,
}
use ollama_local_hives_clust.Jobs.Workers.{settled, started, execute_job, adapted}

-- What a job is submitted with.
abbrev pub SameJob : {N : Type 0} → Job N → Job N → Type 0
SameJob j j' =
    (j'.id ≡ j.id)
    × (j'.client_id ≡ j.client_id)
    × (j'.job_type ≡ j.job_type)
    × (j'.created_at ≡ j.created_at)

abbrev OfResult : {A : Type 0} → (A → Type 0) → Option A → Type 0
OfResult P none = Unit
OfResult P (some a) = P a

module _ {N : Type 0} (to_int : N → ℤ) where
  -- What both readings of the counts keep, and the job has, the job has afterwards.
  parse_token_metrics-kept :
      (P : Job N → Type 0)
      → ((fs : Fields N) (j : Job N) → P j → P (with_counts to_int fs j))
      → ((fs : Fields N) (j : Job N) → P j → P (with_usage to_int fs j))
      → (r : Json N) (j : Job N) → P j
      → P (parse_token_metrics to_int r j)
  unfolding parse_token_metrics
  parse_token_metrics-kept P c u null_value j p = p
  parse_token_metrics-kept P c u (bool_value b) j p = p
  parse_token_metrics-kept P c u (number_value n) j p = p
  parse_token_metrics-kept P c u (text_value t) j p = p
  parse_token_metrics-kept P c u (array_value es) j p = p
  parse_token_metrics-kept P c u (text_maps es) j p = p
  parse_token_metrics-kept P c u (object_value fs) j p =
      elim (Bool-cases (is_uncounted to_int (with_counts to_int fs j))) [
        | inr e ↦ rw (e, parse_token_metrics) (c fs j p)
        | inl e ↦ elim (Option-cases (as_object (get_field "usage" fs))) [
          | inl f ↦ rw (e, f, parse_token_metrics) (c fs j p)
          | inr (usage, f) ↦
              rw (e, f, parse_token_metrics) (u usage (with_counts to_int fs j) (c fs j p))
        ]
      ]

  parse_token_metrics-SameJob :
      (r : Json N) (j j' : Job N) → SameJob j j' → SameJob j (parse_token_metrics to_int r j')
  unfolding with_counts with_usage
  parse_token_metrics-SameJob r j j' same =
      parse_token_metrics-kept (SameJob j) (λ fs t p. p) (λ fs t p. p) r j' same

  -- The total is the sum of the two counts, on 64 bits.
  abbrev pub Totalled : Job N → Type 0
  Totalled j = j.total_tokens ≡ add64 j.prompt_tokens j.eval_tokens

  -- A job with a result is completed, at the given time.
  abbrev pub Done : ℕ → Json N → Job N → Type 0
  Done now r j =
      (j.completed_at ≡ some now)
      × ((j.status ≡ job_completed) × ((j.result ≡ some r) × Totalled j))

  pub parse_token_metrics-Done :
      (now : ℕ) (r r' : Json N) (j : Job N)
      → Done now r j
      → Done now r (parse_token_metrics to_int r' j)
  unfolding with_counts with_usage
  parse_token_metrics-Done now r r' j d =
      parse_token_metrics-kept (Done now r) (λ fs t p. (p.0, (p.1.0, (p.1.1.0, refl))))
        (λ fs t p. (p.0, (p.1.0, (p.1.1.0, refl)))) r' j d

module _ {N : Type 0} (to_int : N → ℤ) (tenth : N) (ollama_model : String)
    (write_prompt : String → Option String → Fields N → String) (reader : JsonReader N) where
  -- How a job leaves executeJob: completed with its result, or failed without one.
  abbrev pub Settled : ℕ → Job N → Type 0
  Settled now j =
      ((r : Json N) × Done to_int now r j)
      ⊎ ((j.completed_at ≡ some now)
          × ((j.status ≡ job_failed) × ((j.result ≡ none) × Totalled to_int j)))

  settled-Settled :
      (c : CallResult N) (now : ℕ) (j : Job N)
      → Totalled to_int j
      → Settled now (settled to_int tenth ollama_model write_prompt reader c now j)
  unfolding settled
  settled-Settled (call_failed e) now j t = inr (refl, (refl, (refl, t)))
  settled-Settled (call_answered r) now j t = inl (
    r,
    parse_token_metrics-Done to_int now r r
        (record j { completed_at = some now; status = job_completed; result = some r })
        (refl, (refl, (refl, t))),
  )

  settled-SameJob :
      (c : CallResult N) (now : ℕ) (j : Job N)
      → SameJob j (settled to_int tenth ollama_model write_prompt reader c now j)
  unfolding settled
  settled-SameJob (call_failed e) now j = (refl, refl, refl, refl)
  settled-SameJob (call_answered r) now j =
      parse_token_metrics-SameJob to_int r j _ (refl, refl, refl, refl)

  -- An executed job keeps its id, client, type and time of creation.
  pub execute_job-SameJob :
      (answer : OllamaCall N → CallResult N) (now : ℕ) (j done : Job N)
      → execute_job to_int tenth ollama_model write_prompt reader answer now j ≡ some done
      → SameJob j done
  unfolding execute_job
  execute_job-SameJob answer now j done e =
      let c = adapted to_int tenth ollama_model write_prompt reader j.job_type (
        perform tenth ollama_model answer
          (call_of tenth ollama_model write_prompt j.job_type j.payload_map)) in
      subst (OfResult (SameJob j)) e (elim (Option-cases c) [
        | inl panics ↦ rw (panics, execute_job) tt
        | inr (r, f) ↦ rw (f, execute_job) (settled-SameJob r now j)
      ])

  -- The answer is an object whose text is JSON's null, and has something to copy.
  abbrev pub Panics : String → CallResult N → Type 0
  Panics t c =
      (fs : Fields N) × (is_generic tenth ollama_model t ≡ true)
      × (c ≡ call_answered (object_value fs))
      × (extract_json_from_response reader fs ≡ none)
      × (has_counts tenth ollama_model fs ≡ true)

  generic_result-none :
      (r : Json N)
      → generic_result tenth ollama_model reader r ≡ none
      → (fs : Fields N) × (r ≡ object_value fs)
        × (extract_json_from_response reader fs ≡ none)
        × (has_counts tenth ollama_model fs ≡ true)
  unfolding generic_result
  generic_result-none null_value e = cc
  generic_result-none (bool_value b) e = cc
  generic_result-none (number_value n) e = cc
  generic_result-none (text_value t) e = cc
  generic_result-none (array_value es) e = cc
  generic_result-none (text_maps es) e = cc
  generic_result-none (object_value fs) e =
      elim (Option-cases (extract_json_from_response reader fs)) [
        | inr (x, f) ↦
            let absent : ◌≡◌ {A = Option (Json N)} (some _) none = rw (generic_result, f) at e in cc
        | inl f ↦ elim (Bool-cases (has_counts tenth ollama_model fs)) [
          | inl counted ↦ (fs, refl, f, counted)
          | inr bare ↦
              let absent : ◌≡◌ {A = Option (Json N)} (some null_value) none =
                rw (generic_result, f, bare) at e in
              cc
        ]
      ]

  abbrev Adapts : String → CallResult N → Type 0
  Adapts t c =
      ((adapted to_int tenth ollama_model write_prompt reader t c ≡ none) × Panics t c)
      ⊎ ((c' : CallResult N) × (adapted to_int tenth ollama_model write_prompt reader t c
            ≡ some c'))

  adapts : (t : String) (c : CallResult N) → Adapts t c
  unfolding adapted
  adapts t (call_failed f) = inr (call_failed f, refl)
  adapts t (call_answered r) = elim (Bool-cases (is_generic tenth ollama_model t)) [
    | inr other ↦ inr (call_answered r, rw (adapted, other) refl)
    | inl generic ↦ elim (Option-cases (generic_result tenth ollama_model reader r)) [
      | inr (r', e) ↦ inr (call_answered r', rw (adapted, generic, e) refl)
      | inl e ↦
          let (fs, same, nil, counted) = generic_result-none r e in
          inl (rw (adapted, generic, e) refl, (fs, generic, ap call_answered same, nil, counted))
    ]
  ]

  -- What Ollama answers the call that is made for a job.
  abbrev pub answer_of : (OllamaCall N → CallResult N) → Job N → CallResult N
  unfolding perform call_of
  answer_of answer j =
      perform tenth ollama_model answer
        (call_of tenth ollama_model write_prompt j.job_type j.payload_map)

  -- A new job that a worker has started ends in one of two ways, for every type of job and every answer
  -- of Ollama. It leaves executeJob, completed with a result or failed with none, with the time of its
  -- end, and with a total that is the sum of its two token counts. Or the worker panics: then the job
  -- is one for a generic prompt, and the answer is an object that names a model or a count while the
  -- text that it holds is JSON's null.
  pub execute_job-Settled :
      (answer : OllamaCall N → CallResult N) (id client_id job_type : String) (payload : Fields N)
      (no_duration : N) (created begun now : ℕ)
      → (let job = started begun (new_job id client_id job_type payload no_duration created) in
          ((execute_job to_int tenth ollama_model write_prompt reader answer now job ≡ none)
            × Panics job_type (answer_of answer job))
          ⊎ ((done : Job N) × (execute_job to_int tenth ollama_model write_prompt reader answer now
                  job
                ≡ some done)
              × Settled now done))
  unfolding execute_job started new_job add64
  execute_job-Settled answer id client_id job_type payload no_duration created begun now =
      let job = started begun (new_job id client_id job_type payload no_duration created) in
      elim (adapts job_type (answer_of answer job)) [
        | inl (gone, why) ↦ inl (rw (execute_job, gone) refl, why)
        | inr (c, e) ↦ inr (
          settled to_int tenth ollama_model write_prompt reader c now job,
          rw (execute_job, e) refl,
          settled-Settled c now job refl,
        )
      ]
