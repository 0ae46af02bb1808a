-- ===== src/Subscribe/Writer/Waves.antt =====
-- The map of the waves in flight on a Subscribe stream, and the count of what a stream has answered.
use xmtp_node_go.Base.{
  Bool, Bool-cases, Distinct, List, [], arith, eq_iff, eq_self, erase, false, if◌then◌else◌, inl,
  inr, lookup, member, not, refl, some, true, ℕ, ◌&&◌, ◌++◌, ◌+◌, ◌<◌, ◌==◌, ◌∷◌, ◌≡◌, nat_eq,
  bytes_eq,
}
use xmtp_node_go.Subscribe.Writer.{Response, catchup_complete, WaveState, put_wave}

abbrev pub one_if : Bool → ℕ
one_if b = if b then 1 else 0

abbrev pub completes_of : ℕ → Response → ℕ
completes_of k (catchup_complete j) = one_if (j == k)
completes_of k _ = 0

-- The CatchupComplete frames with an id.
abbrev pub completes : ℕ → List Response → ℕ
completes k [] = 0
completes k (r ∷ rs) = completes_of k r + completes k rs

-- The waves in flight with an id.
abbrev pub waves_of : ℕ → List (ℕ × WaveState) → ℕ
waves_of k [] = 0
waves_of k ((wave, s) ∷ waves) = one_if (s.mutate_id == k) + waves_of k waves

abbrev pub wave_keys : List (ℕ × WaveState) → List ℕ
wave_keys [] = []
wave_keys ((wave, s) ∷ waves) = wave ∷ wave_keys waves

abbrev pub Below : ℕ → List (ℕ × WaveState) → Type 0
Below bound [] = Unit
Below bound ((wave, s) ∷ waves) = (wave < bound) × Below bound waves

-- No two waves in flight share a number, and none has a number not given out yet.
pub record WavesValid (next_wave : ℕ) (waves : List (ℕ × WaveState)) : Type 0 where
  pub distinct : Distinct (wave_keys waves)
  pub below : Below next_wave waves

pub completes-append :
    (k : ℕ) (rs ss : List Response) → completes k (rs ++ ss) ≡ completes k rs + completes k ss
completes-append k [] ss = omega arith
completes-append k (r ∷ rs) ss = omega (arith, completes-append k rs ss)

erase-absent :
    (i : ℕ) (waves : List (ℕ × WaveState))
    → member i (wave_keys waves) ≡ false
    → erase i waves ≡ waves
unfolding erase
erase-absent i [] h = refl
erase-absent i ((j, s) ∷ waves) h = ground (arith, erase-absent i waves, eq_iff j i)

member-erase :
    (i j : ℕ) (waves : List (ℕ × WaveState))
    → member j (wave_keys (erase i waves)) ≡ (member j (wave_keys waves) && not (i == j))
unfolding erase
member-erase i j [] = refl
member-erase i j ((l, s) ∷ waves) =
    ground (arith, member-erase i j waves, eq_iff l i, eq_iff l j, eq_iff i j)

erase-Distinct :
    (i : ℕ) (waves : List (ℕ × WaveState))
    → Distinct (wave_keys waves)
    → Distinct (wave_keys (erase i waves))
unfolding erase
erase-Distinct i [] h = tt
erase-Distinct i ((j, s) ∷ waves) h =
    ground (arith, h, erase-Distinct i waves h.1, member-erase i j waves)

erase-Below :
    (i bound : ℕ) (waves : List (ℕ × WaveState)) → Below bound waves → Below bound (erase i waves)
unfolding erase
erase-Below i bound [] h = tt
erase-Below i bound ((j, s) ∷ waves) h = ground (arith, h, erase-Below i bound waves h.1)

Below-member :
    (i bound : ℕ) (waves : List (ℕ × WaveState))
    → Below bound waves
    → member i (wave_keys waves) ≡ true
    → i < bound
Below-member i bound [] h m = absurd (cc)
Below-member i bound ((j, s) ∷ waves) h m =
    ground (arith, h, Below-member i bound waves h.1, eq_iff j i)

Below-weaken :
    (bound : ℕ) (waves : List (ℕ × WaveState)) → Below bound waves → Below (bound + 1) waves
Below-weaken bound [] h = tt
Below-weaken bound ((j, s) ∷ waves) h = (omega (arith, h.0), Below-weaken bound waves h.1)

lookup-member :
    (i : ℕ) (s : WaveState) (waves : List (ℕ × WaveState))
    → lookup i waves ≡ some s
    → member i (wave_keys waves) ≡ true
unfolding lookup
lookup-member i s [] h = absurd (cc)
lookup-member i s ((j, x) ∷ waves) h = ground (arith, lookup-member i s waves)

pub erase-WavesValid :
    (i n : ℕ) (waves : List (ℕ × WaveState)) → WavesValid n waves → WavesValid n (erase i waves)
erase-WavesValid i n waves v = record {
  distinct = erase-Distinct i waves v.distinct;
  below = erase-Below i n waves v.below;
}

pub waves_of-erase :
    (k i : ℕ) (s : WaveState) (waves : List (ℕ × WaveState))
    → Distinct (wave_keys waves)
    → lookup i waves ≡ some s
    → one_if (s.mutate_id == k) + waves_of k (erase i waves) ≡ waves_of k waves
unfolding lookup erase
waves_of-erase k i s [] d h = absurd (cc)
waves_of-erase k i s ((j, x) ∷ waves) d h = elim (Bool-cases (j == i)) [
  | inl same ↦
      let found : x ≡ s = ground (arith, same, h) in
      rw same (ground (arith, found, erase-absent i waves (ground (arith, d, (eq_iff j i).0 same))))
  | inr other ↦ rw other (omega (arith, waves_of-erase k i s waves d.1 (ground (arith, other, h))))
]

-- A wave in flight that changes, its id kept.
pub put_wave-WavesValid :
    (i n : ℕ) (s x : WaveState) (waves : List (ℕ × WaveState))
    → WavesValid n waves
    → lookup i waves ≡ some s
    → WavesValid n (put_wave i x waves)
unfolding put_wave
put_wave-WavesValid i n s x waves v h = record {
  distinct = (ground (arith, member-erase i i waves, eq_self i), erase-Distinct i waves v.distinct);
  below =
      (Below-member i n waves v.below (lookup-member i s waves h), erase-Below i n waves v.below);
}

-- A wave that starts.
pub start_wave-WavesValid :
    (n : ℕ) (x : WaveState) (waves : List (ℕ × WaveState))
    → WavesValid n waves
    → WavesValid (n + 1) (put_wave n x waves)
unfolding put_wave
start_wave-WavesValid n x waves v = record {
  distinct = (ground (arith, member-erase n n waves, eq_self n), erase-Distinct n waves v.distinct);
  below = (omega arith, Below-weaken n (erase n waves) (erase-Below n n waves v.below));
}

pub waves_of-start_wave :
    (k n : ℕ) (x : WaveState) (waves : List (ℕ × WaveState))
    → WavesValid n waves
    → waves_of k (put_wave n x waves) ≡ one_if (x.mutate_id == k) + waves_of k waves
unfolding put_wave
waves_of-start_wave k n x waves v = elim (Bool-cases (member n (wave_keys waves))) [
  | inl there ↦ absurd (omega (arith, Below-member n n waves v.below there))
  | inr absent ↦ rw (erase-absent n waves absent) refl
]
