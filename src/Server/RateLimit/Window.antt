-- ===== src/Server/RateLimit/Window.antt =====
-- rate_limit.rs: the limiter beside a reference that keeps every request.
use mathlib.Core.List.{append-nil}
use failsafe.Prelude.{
  ℕ, ◌-◌, ◌≤◌, ◌≡◌, refl, sym, ap, ◌∙◌, inl, inr, Bool, true, false, String, List, [], ◌∷◌, ◌++◌,
  length, ltb, leb, string_key, ◌==◌, if◌then◌else◌, arith, Bool-cases, beq→eq,
}
use failsafe.Prelude.Assoc.{get, insert, get-insert}
use failsafe.Server.RateLimit.{RateLimiter, history_of, recent, allow, new_limiter}

-- The calls, with their keys and times.
abbrev pub Calls : Type 0
Calls = List (String × ℕ)

-- The times of a key's requests in a log.
abbrev pub times : String → Calls → List ℕ
times key [] = []
times key ((j, t) ∷ log) = if j == key then t ∷ times key log else times key log

-- The reference keeps all requests that it ever allowed, and allows one when fewer than the
-- maximum of its key's are younger than the window.
abbrev pub allow_logged : ℕ → ℕ → String → ℕ → Calls → Calls × Bool
allow_logged max_requests window key now log =
    if leb max_requests (length (recent window now (times key log)))
    then (log, false)
    else (log ++ (key, now) ∷ [], true)

abbrev pub decisions : Calls → RateLimiter → List Bool
decisions [] l = []
decisions ((key, now) ∷ calls) l = (allow key now l).1 ∷ decisions calls (allow key now l).0

abbrev pub decisions_logged : ℕ → ℕ → Calls → Calls → List Bool
decisions_logged max_requests window [] log = []
decisions_logged max_requests window ((key, now) ∷ calls) log =
    (allow_logged max_requests window key now log).1
    ∷ decisions_logged max_requests window calls (allow_logged max_requests window key now log).0

-- The clock does not go back.
abbrev pub IsMonotone : ℕ → Calls → Type 0
IsMonotone now [] = Unit
IsMonotone now ((key, t) ∷ calls) = (now ≤ t) × IsMonotone t calls

recent-append :
    (w now : ℕ) (xs ys : List ℕ) → recent w now (xs ++ ys) ≡ recent w now xs ++ recent w now ys
recent-append w now [] ys = refl
recent-append w now (x ∷ xs) ys = elim (Bool-cases (ltb (now - x) w)) [
  | inl young ↦ rw young (ap (λ t. x ∷ t) (recent-append w now xs ys))
  | inr old ↦ rw old (recent-append w now xs ys)
]

-- What was dropped is still too old later.
recent-recent :
    (w now later : ℕ) (xs : List ℕ)
    → now ≤ later
    → recent w later (recent w now xs) ≡ recent w later xs
recent-recent w now later [] le = refl
recent-recent w now later (x ∷ xs) le = elim (Bool-cases (ltb (now - x) w)) [
  | inl young ↦ ground (arith, young, recent-recent w now later xs le)
  | inr old ↦
      let still : ltb (later - x) w ≡ false = ground (arith, old, le) in
      rw (old, still) (recent-recent w now later xs le)
]

times-append :
    (key : String) (log : Calls) (j : String) (t : ℕ)
    → times key (log ++ (j, t) ∷ []) ≡ times key log ++ (if j == key then t ∷ [] else [])
times-append key [] j t = elim (Bool-cases (j == key)) [ inl e ↦ rw e refl | inr e ↦ rw e refl ]
times-append key ((i, s) ∷ log) j t = elim (Bool-cases (i == key)) [
  | inl e ↦ rw e (ap (λ r. s ∷ r) (times-append key log j t))
  | inr e ↦ rw e (times-append key log j t)
]

-- From `now` on the limiter remembers of each key what the log has of it.
abbrev Remembers : ℕ → RateLimiter → Calls → Type 0
Remembers now l log =
    (key : String) (later : ℕ)
    → now ≤ later
    → recent l.window later (history_of key l) ≡ recent l.window later (times key log)

history_of-insert :
    (key j : String) (h : List ℕ) (l : RateLimiter)
    → history_of key (record l { entries = insert j h l.entries })
      ≡ (if j == key then h else history_of key l)
history_of-insert key j h l = elim (Bool-cases (j == key)) [
  | inl e ↦ rw (get-insert j key h l.entries, e) refl
  | inr e ↦ rw (get-insert j key h l.entries, e) refl
]

refuse-Remembers :
    (key : String) (now before : ℕ) (l : RateLimiter) (log : Calls)
    → before ≤ now
    → Remembers before l log
    → Remembers now
        (record l { entries = insert key (recent l.window now (times key log)) l.entries })
        log
refuse-Remembers key now before l log le r k later le' = elim (Bool-cases (key == k)) [
  | inl same ↦
      rw (history_of-insert k key (recent l.window now (times key log)) l, same)
        (recent-recent l.window now later (times key log) le'
          ∙ ap (λ j. recent l.window later (times j log)) (beq→eq key k same))
  | inr other ↦
      rw (history_of-insert k key (recent l.window now (times key log)) l, other)
        (r k later (omega arith))
]

accept-Remembers :
    (key : String) (now before : ℕ) (l : RateLimiter) (log : Calls)
    → before ≤ now
    → Remembers before l log
    → Remembers now
        (record l {
          entries = insert key (recent l.window now (times key log) ++ now ∷ []) l.entries;
        })
        (log ++ (key, now) ∷ [])
accept-Remembers key now before l log le r k later le' = elim (Bool-cases (key == k)) [
  | inl same ↦
      rw
        (
          history_of-insert k key (recent l.window now (times key log) ++ now ∷ []) l,
          times-append k log key now,
          same,
        )
        (recent-append l.window later (recent l.window now (times key log)) (now ∷ [])
          ∙ ap (λ t. t ++ recent l.window later (now ∷ []))
              (recent-recent l.window now later (times key log) le'
                ∙ ap (λ j. recent l.window later (times j log)) (beq→eq key k same))
          ∙ sym (recent-append l.window later (times k log) (now ∷ [])))
  | inr other ↦
      rw
        (
          history_of-insert k key (recent l.window now (times key log) ++ now ∷ []) l,
          times-append k log key now,
          other,
          append-nil (times k log),
        )
        (r k later (omega arith))
]

allow-Remembers :
    (key : String) (now before : ℕ) (l : RateLimiter) (log : Calls)
    → before ≤ now
    → Remembers before l log
    → ((allow key now l).1 ≡ (allow_logged l.max_requests l.window key now log).1)
      × Remembers now (allow key now l).0 (allow_logged l.max_requests l.window key now log).0
      × ((allow key now l).0.max_requests ≡ l.max_requests)
      × ((allow key now l).0.window ≡ l.window)
unfolding allow
allow-Remembers key now before l log le r =
    let same = r key now le in
    elim (Bool-cases (leb l.max_requests (length (recent l.window now (times key log))))) [
      | inl full ↦ rw (same, full) (refl, refuse-Remembers key now before l log le r, refl, refl)
      | inr free ↦ rw (same, free) (refl, accept-Remembers key now before l log le r, refl, refl)
    ]

decisions-Remembers :
    (calls : Calls) (before : ℕ) (l : RateLimiter) (log : Calls)
    → IsMonotone before calls
    → Remembers before l log
    → decisions calls l ≡ decisions_logged l.max_requests l.window calls log
decisions-Remembers [] before l log m r = refl
decisions-Remembers ((key, now) ∷ calls) before l log m r =
    let one = allow-Remembers key now before l log m.0 r in
    let l' = (allow key now l).0 in
    let logged = allow_logged l.max_requests l.window key now log in
    let rest = decisions-Remembers calls now l' logged.0 m.1 one.1 in
    ap (λ b. b ∷ decisions calls l') one.0
    ∙ ap (λ t. logged.1 ∷ t)
        (rest
          ∙ ap (λ n. decisions_logged n l'.window calls logged.0) one.2
          ∙ ap (λ w. decisions_logged l.max_requests w calls logged.0) one.3)

-- While the clock does not go back, a new limiter decides every sequence of requests as the
-- reference that forgets none: a request is allowed exactly when fewer than the maximum of the
-- allowed requests of its key are younger than the window.
pub decisions-logged :
    (calls : Calls) (max_requests window : ℕ)
    → IsMonotone 0 calls
    → decisions calls (new_limiter max_requests window)
      ≡ decisions_logged max_requests window calls []
unfolding get
decisions-logged calls max_requests window m =
    decisions-Remembers calls 0 (new_limiter max_requests window) [] m (λ key later le. refl)
