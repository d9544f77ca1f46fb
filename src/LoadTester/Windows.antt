-- ===== src/LoadTester/Windows.antt =====
-- experiments/utils/workload.py: the windows that a workload is put together from.
use ipa_arman.Prelude.{
  ℕ, zero, suc, String, ◌≡◌, refl, sym, ap, ◌∙◌, Option, List, [], ◌∷◌, ◌++◌, ok, >>=-eq-ok,
  ok-injective, traverse, length, for_each, append_assoc, append-nil, Conversions, Runtime,
}
use ipa_arman.LoadTester.Workload.{
  Window, WorkloadConfig, static, twitter, other, repeated, window_load, windows_load,
  make_workload,
}

length-repeated {ℓ} : {A : Type ℓ} (n : ℕ) (x : A) → length (repeated n x) ≡ n
unfolding repeated
length-repeated zero x = refl
length-repeated (suc n) x = ap suc (length-repeated n x)

unfoldable pub concat {ℓ} : {A : Type ℓ} → List (List A) → List A
concat xss = for_each (λ xs. xs) xss

module _ {F : Type 0} ⦃r : Runtime F⦄ (texts : Conversions F) (data_ : String) where
  windows_load-concat :
      (interval : Option ℕ) (before : List ℕ) (ws : List (Window F)) {workload : List ℕ}
      → windows_load texts data_ interval before ws ≡ ok workload
      → (parts : List (List ℕ)) × (traverse (window_load texts data_ interval) ws ≡ ok parts)
        × (workload ≡ before ++ concat parts)
  unfolding windows_load traverse concat for_each
  windows_load-concat interval before [] {workload} h =
      ([], refl, sym (ok-injective h) ∙ sym (append-nil before))
  windows_load-concat interval before (w ∷ ws) {workload} h =
      let (loads, e, h1) = >>=-eq-ok (window_load texts data_ interval w) _ h in
      let (parts, f, same) = windows_load-concat interval (before ++ loads) ws h1 in
      (loads ∷ parts, rw (e, f) refl, same ∙ append_assoc before loads (concat parts))

  -- The duration is the number of seconds of the workload.
  abbrev pub IsLoad : Option ℕ → WorkloadConfig F → List ℕ → Type 0
  IsLoad interval (static load duration) workload = workload ≡ repeated duration load
  IsLoad interval (twitter windows) workload =
      (parts : List (List ℕ)) × (traverse (window_load texts data_ interval) windows ≡ ok parts)
      × (workload ≡ concat parts)
  IsLoad interval other workload = ⊥

  -- The duration that `make_workload` returns is the number of seconds of its workload, which repeats
  -- the static load, or puts the loads of the windows one behind the other.
  pub make_workload_lem :
      (interval : Option ℕ) (config : WorkloadConfig F) {duration : ℕ} {workload : List ℕ}
      → make_workload texts data_ interval config ≡ ok (duration, workload)
      → (duration ≡ length workload) × IsLoad interval config workload
  unfolding make_workload
  make_workload_lem interval (static load n) h =
      let e = ok-injective h in
      let same = ap (λ (p : ℕ × List ℕ). p.1) (sym e) in
      (
        ap (λ (p : ℕ × List ℕ). p.0) (sym e) ∙ sym (length-repeated n load) ∙ ap length (sym same),
        same,
      )
  make_workload_lem interval (twitter windows) h =
      let (loads, e, h1) = >>=-eq-ok (windows_load texts data_ interval [] windows) _ h in
      let same = ap (λ (p : ℕ × List ℕ). p.1) (sym (ok-injective h1)) in
      let (parts, f, g) = windows_load-concat interval [] windows e in
      (
        ap (λ (p : ℕ × List ℕ). p.0) (sym (ok-injective h1)) ∙ ap length (sym same),
        (parts, f, same ∙ g),
      )
  make_workload_lem interval other h = cc
