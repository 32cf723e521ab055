-- ===== src/Evidence/Output.antt =====
-- internal/evidence/runner.go: the output that a buffer keeps, and when a run is an observation.
use mailproof.Base.{
  ℕ, zero, suc, ◌-◌, ◌≤◌, ◌<◌, ◌≡◌, ◌↔◌, refl, sym, ◌∙◌, String, true, false, ltb, List, [], ◌∷◌,
  ◌++◌, str_eq, any_row, has_prefix, length, take, arith, length-append, Bool-cases, inl, inr,
}
use mailproof.Evidence.Records.{observed}
use mailproof.Evidence.Runner.{
  LimitedBuffer, write, write_all, empty_buffer, Command, success, Process, CommandResult, run,
  stdout_of, stderr_of,
}
use mathlib.Core.List.{append-nil, append_assoc}

take_all : (n : ℕ) (xs : List ℕ) → length xs ≤ n → take n xs ≡ xs
take_all zero [] h = refl
take_all (suc n) [] h = refl
take_all zero (x ∷ xs) h = absurd (omega arith)
take_all (suc n) (x ∷ xs) h = ground (arith, take_all n xs)

take-append_within :
    (n : ℕ) (xs ys : List ℕ) → length xs ≤ n → take n (xs ++ ys) ≡ xs ++ take (n - length xs) ys
take-append_within n [] ys h = ground arith
take-append_within zero (x ∷ xs) ys h = absurd (omega arith)
take-append_within (suc n) (x ∷ xs) ys h = ground (arith, take-append_within n xs ys)

take-append_beyond : (n : ℕ) (xs ys : List ℕ) → n ≤ length xs → take n (xs ++ ys) ≡ take n xs
take-append_beyond zero xs ys h = refl
take-append_beyond (suc n) [] ys h = absurd (omega arith)
take-append_beyond (suc n) (x ∷ xs) ys h = ground (arith, take-append_beyond n xs ys)

length-take_beyond : (n : ℕ) (xs : List ℕ) → n ≤ length xs → length (take n xs) ≡ n
length-take_beyond zero xs h = refl
length-take_beyond (suc n) [] h = absurd (omega arith)
length-take_beyond (suc n) (x ∷ xs) h = ground (arith, length-take_beyond n xs)

take-nil : (n : ℕ) → take {A = ℕ} n [] ≡ []
take-nil zero = refl
take-nil (suc n) = refl

take-zero : (xs : List ℕ) → take 0 xs ≡ []
take-zero xs = refl

-- The buffer holds the first n bytes of what it has seen.
record Holds (n : ℕ) (s : LimitedBuffer) (seen : List ℕ) : Type 0 where
  pub limit : s.n ≡ n
  pub kept : s.b ≡ take n seen
  pub reached : s.hit ≡ ltb n (length seen)

write_within :
    (n : ℕ) (seen p : List ℕ)
    → length seen ≤ n
    → Holds n (write (record { b = seen; n = n; hit = false }) p) (seen ++ p)
unfolding write
write_within n seen p h = record {
  limit = ground arith;
  kept = ground (
    arith,
    take-append_within n seen p h,
    take_all (n - length seen) p,
    append-nil seen,
    take-zero p,
  );
  reached = ground (arith, length-append seen p);
}

write_beyond :
    (n : ℕ) (seen p : List ℕ)
    → n < length seen
    → Holds n (write (record { b = take n seen; n = n; hit = true }) p) (seen ++ p)
unfolding write
write_beyond n seen [] h =
    rw (append-nil seen, length-take_beyond n seen (omega arith))
      (record {
        limit = ground arith;
        kept = ground (arith, append-nil (take n seen));
        reached = ground arith;
      })
write_beyond n seen (x ∷ p) h = rw (length-take_beyond n seen (omega arith)) (record {
  limit = ground arith;
  kept = ground (arith, take-append_beyond n seen (x ∷ p));
  reached = ground (arith, length-append seen (x ∷ p));
})

write-Holds :
    (n : ℕ) (s : LimitedBuffer) (seen p : List ℕ) → Holds n s seen → Holds n (write s p) (seen ++ p)
write-Holds n s seen p h = elim (Bool-cases (ltb n (length seen))) [
  | inl over ↦
      let e : s ≡ record { b = take n seen; n = n; hit = true } =
        ground (arith, h.kept, h.limit, h.reached) in
      rw e (write_beyond n seen p (ground arith))
  | inr within ↦
      let e : s ≡ record { b = seen; n = n; hit = false } =
        ground (arith, h.kept, h.limit, h.reached, take_all n seen) in
      rw e (write_within n seen p (ground arith))
]

abbrev pub joined : List (List ℕ) → List ℕ
joined [] = []
joined (p ∷ ps) = p ++ joined ps

write_all-Holds :
    (n : ℕ) (s : LimitedBuffer) (seen : List ℕ) (ps : List (List ℕ))
    → Holds n s seen
    → Holds n (write_all s ps) (seen ++ joined ps)
unfolding write_all
write_all-Holds n s seen [] h = rw (append-nil seen) h
write_all-Holds n s seen (p ∷ ps) h =
    rw (← append_assoc seen p (joined ps))
      (write_all-Holds n (write s p) (seen ++ p) ps (write-Holds n s seen p h))

-- Whatever is written to a buffer with a limit of n bytes, in pieces of any size, the buffer keeps
-- the first n bytes of the whole output, and it reports a hit exactly when there were more.
pub write_all_lem :
    (n : ℕ) (ps : List (List ℕ))
    → ((write_all (empty_buffer n) ps).b ≡ take n (joined ps))
      × ((write_all (empty_buffer n) ps).hit ≡ ltb n (length (joined ps)))
write_all_lem n ps =
    let h =
      write_all-Holds n (empty_buffer n) [] ps
        (record { limit = refl; kept = sym (take-nil n); reached = ground arith }) in
    (h.kept, h.reached)

-- When a run is an observation.
pub record Observes (allowed : List String) (c : Command) (process : Process) (r : CommandResult)
    : Type 0 where
  pub listed : any_row (str_eq c.path) allowed ≡ true
  pub rooted : has_prefix c.path "/" ≡ true
  pub bounded : 0 < c.timeout
  pub in_time : process.timed_out ≡ false
  pub succeeded : process.ending ≡ success
  pub stdout_fits : length (joined process.stdout_writes) ≤ c.stdout_limit
  pub stderr_fits : length (joined process.stderr_writes) ≤ c.stderr_limit
  pub whole_stdout : r.stdout ≡ joined process.stdout_writes
  pub whole_stderr : r.stderr ≡ joined process.stderr_writes

fits :
    (n : ℕ) (ps : List (List ℕ))
    → (write_all (empty_buffer n) ps).hit ≡ false
    → length (joined ps) ≤ n
fits n ps h = ground (arith, (write_all_lem n ps).1)

whole :
    (n : ℕ) (ps : List (List ℕ))
    → length (joined ps) ≤ n
    → (write_all (empty_buffer n) ps).b ≡ joined ps
whole n ps h = (write_all_lem n ps).0 ∙ take_all n (joined ps) h

not_hit :
    (n : ℕ) (ps : List (List ℕ))
    → length (joined ps) ≤ n
    → (write_all (empty_buffer n) ps).hit ≡ false
not_hit n ps h = ground (arith, (write_all_lem n ps).1)

record Accepts (allowed : List String) (c : Command) (process : Process) (out errb : LimitedBuffer)
    : Type 0 where
  pub listed : any_row (str_eq c.path) allowed ≡ true
  pub rooted : has_prefix c.path "/" ≡ true
  pub bounded : 0 < c.timeout
  pub in_time : process.timed_out ≡ false
  pub succeeded : process.ending ≡ success
  pub out_within : out.hit ≡ false
  pub err_within : errb.hit ≡ false

run-Accepts :
    (digest : List ℕ → String) (allowed : List String) (c : Command) (process : Process)
    → (run digest allowed c process).status ≡ observed
    → Accepts allowed c process (stdout_of c process) (stderr_of c process)
      × ((run digest allowed c process).stdout ≡ (stdout_of c process).b)
      × ((run digest allowed c process).stderr ≡ (stderr_of c process).b)
unfolding run
run-Accepts digest allowed c process h = (
  record {
    listed = ground arith;
    rooted = ground arith;
    bounded = ground arith;
    in_time = ground arith;
    succeeded = ground arith;
    out_within = ground arith;
    err_within = ground arith;
  },
  ground arith,
  ground arith,
)

Accepts-run :
    (digest : List ℕ → String) (allowed : List String) (c : Command) (process : Process)
    → Accepts allowed c process (stdout_of c process) (stderr_of c process)
    → (run digest allowed c process).status ≡ observed
unfolding run
Accepts-run digest allowed c process a =
    ground
      (arith, a.listed, a.rooted, a.bounded, a.in_time, a.succeeded, a.out_within, a.err_within)

-- The status of a run is "observed" exactly when its executable is listed and its path absolute,
-- the timeout is positive and was not met, the process ended well, and both its outputs lie within
-- their limits; and then the result carries both outputs whole.
pub run_observed :
    (digest : List ℕ → String) (allowed : List String) (c : Command) (process : Process)
    → ((run digest allowed c process).status ≡ observed)
      ↔ Observes allowed c process (run digest allowed c process)
run_observed digest allowed c process = (
  λ h.
      let (a, out, errb) = run-Accepts digest allowed c process h in
      let f = fits c.stdout_limit process.stdout_writes a.out_within in
      let g = fits c.stderr_limit process.stderr_writes a.err_within in
      record {
        listed = a.listed;
        rooted = a.rooted;
        bounded = a.bounded;
        in_time = a.in_time;
        succeeded = a.succeeded;
        stdout_fits = f;
        stderr_fits = g;
        whole_stdout = out ∙ whole c.stdout_limit process.stdout_writes f;
        whole_stderr = errb ∙ whole c.stderr_limit process.stderr_writes g;
      },
  λ o. Accepts-run digest allowed c process (record {
    listed = o.listed;
    rooted = o.rooted;
    bounded = o.bounded;
    in_time = o.in_time;
    succeeded = o.succeeded;
    out_within = not_hit c.stdout_limit process.stdout_writes o.stdout_fits;
    err_within = not_hit c.stderr_limit process.stderr_writes o.stderr_fits;
  }),
)
