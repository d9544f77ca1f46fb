-- ===== src/Optimizer/Objective/Tests.antt =====
-- The constraints on the sample pipeline.
use ipa_arman.Prelude.{
  ℕ, ◌≡◌, ◌↔◌, ◌≢◌, refl, ok, raised, stop_iteration, true, list_map, traverse, sum, All, Listed,
  [], ◌∷◌, get_elem?, List, some, ltb, arith,
}
use ipa_arman.Models.Task.{
  Task, active_model, find_profile, active_profile, model_latency, queue_latency, latency,
  throughput, throughput_all_replicas,
}
use ipa_arman.Models.Pipeline.{
  Pipeline, stage_wise_latencies, stage_wise_slas, pipeline_sla, pipeline_latency,
}
use ipa_arman.Models.Switch.Tests.{switch_program}
use ipa_arman.Optimizer.Objective.{
  can_sustain_load, sla_is_met, constraints, bottlenecks_from, find_load_bottlenecks,
}
use ipa_arman.Optimizer.Objective.Load.{
  Carries, IsOverloaded, can_sustain_load_iff, find_load_bottlenecks_lem,
}
use ipa_arman.Optimizer.Objective.Constraints.{
  constraints_sound, pipeline_latency_cut, IsPositive, more_replicas, can_sustain_load_mono,
}
use ipa_arman.Samples.{milli, milli-IsOrdered, detect, classify, video}

-- All that a run unfolds.
unfoldable pub objective_program : Unit {0}
unfolding switch_program active_model find_profile active_profile model_latency queue_latency
    latency throughput throughput_all_replicas stage_wise_latencies stage_wise_slas pipeline_sla
    pipeline_latency list_map can_sustain_load sla_is_met constraints bottlenecks_from
    find_load_bottlenecks
objective_program = tt

can_sustain_load_iff_example :
    (can_sustain_load 8 video.inference_graph ≡ ok true) ↔ All (Carries 8) video.inference_graph
can_sustain_load_iff_example = can_sustain_load_iff 8 video.inference_graph

video-constraints : constraints 8 video ≡ ok true
unfolding objective_program
video-constraints = refl

abbrev slow_tasks : List ℕ
slow_tasks = 0 ∷ []

overloaded : find_load_bottlenecks 15 video.inference_graph ≡ ok slow_tasks
unfolding objective_program
overloaded = refl

find_load_bottlenecks_lem_example :
    (slow_tasks ≢ [])
    × ((i : ℕ)
        → Listed i slow_tasks
          ↔ ((t : Task ℕ) × (get_elem? video.inference_graph i ≡ some t) × IsOverloaded 15 t))
find_load_bottlenecks_lem_example =
    find_load_bottlenecks_lem 15 video.inference_graph slow_tasks overloaded

constraints_sound_example :
    All (Carries 8) video.inference_graph
    × ((ls : List ℕ) × (limit : ℕ) × (traverse latency video.inference_graph ≡ ok ls)
        × (pipeline_sla video ≡ ok limit)
        × (ltb (sum ls) limit ≡ true))
constraints_sound_example = constraints_sound 8 video video-constraints

-- No profile of `classify` has the batch size 2.
abbrev odd_batch : Task ℕ
odd_batch = record classify { batch = 2 }

abbrev odd_video : Pipeline ℕ
odd_video = record video { inference_graph = detect ∷ odd_batch ∷ [] }

detect-latency : latency detect ≡ ok 100
unfolding objective_program
detect-latency = refl

odd_batch-missing : active_profile odd_batch ≡ raised stop_iteration
unfolding objective_program
odd_batch-missing = refl

pipeline_latency_cut_example :
    (ls : List ℕ) × (traverse latency (detect ∷ []) ≡ ok ls)
    × (pipeline_latency odd_video ≡ ok (sum ls))
pipeline_latency_cut_example =
    pipeline_latency_cut odd_video (detect ∷ []) odd_batch [] refl ((100, detect-latency), tt)
      odd_batch-missing

detect-IsPositive : IsPositive detect
unfolding objective_program
detect-IsPositive x h = ground arith

classify-IsPositive : IsPositive classify
unfolding objective_program
classify-IsPositive x h = ground arith

video-sustains : can_sustain_load 8 video.inference_graph ≡ ok true
unfolding objective_program
video-sustains = refl

can_sustain_load_mono_example :
    can_sustain_load 5 (more_replicas (2 ∷ []) video.inference_graph) ≡ ok true
can_sustain_load_mono_example =
    can_sustain_load_mono milli-IsOrdered 5 8 (2 ∷ []) video.inference_graph (ground arith)
      (detect-IsPositive, (classify-IsPositive, tt)) video-sustains
