-- ===== src/Tasks/Engine/Sessions/Settling.antt =====
-- When z2c/src/core/tasks/engine.ts sends an instruction twice: `sendWithBusySettle`.
use mathlib.Core.Path.{subst}
use agents_with_chatgpt.Prelude.{
  ℕ, ◌+◌, ◌≤◌, ◌≡◌, ◌↔◌, refl, String, Bool, true, some, Result, ok, err, List, [], ◌∷◌, ◌++◌,
  opt_eq, contains_i, contains_word_i, arith, ap, ◌∙◌, ◌<◌, ◌⊎◌, inl, inr, map, fold_case, codes,
  ends_word, contains_i_iff, contains_word_i_iff, Bool-cases, opt_eq_iff,
}
use agents_with_chatgpt.Tasks.Engine.Sessions.{
  says_busy, Poll, settles, after_refusal, retried, send_with_busy_settle, Paced,
}

-- The error says that a prompt is running already, or has the code of that.
pub SaysBusy : String → Type 0
SaysBusy m =
    ((before rest : List ℕ) × (map fold_case (codes m)
        ≡ before ++ (codes "already running for this session" ++ rest)))
    ⊎ ((before rest : List ℕ) × (map fold_case (codes m) ≡ before ++ (codes "-32010" ++ rest))
        × (ends_word rest ≡ true))

says_busy_iff : (m : String) → (says_busy m ≡ true) ↔ SaysBusy m
unfolding says_busy SaysBusy
says_busy_iff m = (
  λ h. elim (Bool-cases (contains_i "already running for this session" m)) [
    | inl running ↦ inl ((contains_i_iff "already running for this session" m).0 running)
    | inr other ↦ inr ((contains_word_i_iff "-32010" m).0 (ground (arith, h, other)))
  ],
  λ h. elim h [
    | inl running ↦
        let here : contains_i "already running for this session" m ≡ true =
          (contains_i_iff "already running for this session" m).1 running in
        ground (arith, here)
    | inr coded ↦
        let here : contains_word_i "-32010" m ≡ true = (contains_word_i_iff "-32010" m).1 coded in
        ground (arith, here)
  ],
)

abbrev pub last_at : ℕ → List Poll → ℕ
last_at now [] = now
last_at now (p ∷ ps) = last_at p.at ps

-- One of the readings is that the session is idle, and when its pause began, the time was not up.
pub record IdleBy (deadline now : ℕ) (polls : List Poll) : Type 0 where
  pub before : List Poll
  pub poll : Poll
  pub others : List Poll
  pub read : polls ≡ before ++ poll ∷ others
  pub idle : poll.status ≡ some "idle"
  pub in_time : last_at now before < deadline

last_at-le : (now : ℕ) (ps qs : List Poll) → Paced now (ps ++ qs) → now ≤ last_at now ps
unfolding Paced
last_at-le now [] qs h = omega arith
last_at-le now (p ∷ ps) qs h = omega (arith, h.0, last_at-le p.at ps qs h.1)

settles-IdleBy :
    (deadline now : ℕ) (polls : List Poll)
    → settles deadline now polls ≡ true
    → IdleBy deadline now polls
unfolding settles
settles-IdleBy deadline now [] h = absurd (cc)
settles-IdleBy deadline now (p ∷ ps) h = elim (Bool-cases (opt_eq p.status (some "idle"))) [
  | inl idle ↦ record {
    before = [];
    poll = p;
    others = ps;
    read = refl;
    idle = (opt_eq_iff p.status (some "idle")).0 idle;
    in_time = ground (arith, h);
  }
  | inr other ↦
      let later = settles-IdleBy deadline p.at ps (ground (arith, h, other)) in
      record {
        before = p ∷ later.before;
        poll = later.poll;
        others = later.others;
        read = ap (λ qs. p ∷ qs) later.read;
        idle = later.idle;
        in_time = later.in_time;
      }
]

settles-read :
    (deadline now : ℕ) (before others : List Poll) (p : Poll)
    → Paced now (before ++ p ∷ others)
    → p.status ≡ some "idle"
    → last_at now before < deadline
    → settles deadline now (before ++ p ∷ others) ≡ true
unfolding settles Paced
settles-read deadline now [] others p h idle in_time =
    ground (arith, in_time, (opt_eq_iff p.status (some "idle")).1 idle)
settles-read deadline now (q ∷ before) others p h idle in_time = ground (
  arith,
  h.0,
  in_time,
  last_at-le q.at before (p ∷ others) h.1,
  settles-read deadline q.at before others p h.1 idle in_time,
)

settles_iff :
    (deadline now : ℕ) (polls : List Poll)
    → Paced now polls
    → (settles deadline now polls ≡ true) ↔ IdleBy deadline now polls
settles_iff deadline now polls h = (
  settles-IdleBy deadline now polls,
  λ i.
      ap (settles deadline now) i.read
      ∙ settles-read deadline now i.before i.others i.poll (subst (Paced now) i.read h) i.idle
          i.in_time,
)

after_refusal-twice :
    {A : Type 0} (m : String) (readable idle : Bool) (again : Result String A)
    → ((after_refusal m readable idle again).0 ≡ 2)
      ↔ ((says_busy m ≡ true) × (readable ≡ true) × (idle ≡ true))
unfolding after_refusal retried
after_refusal-twice m readable idle (ok a) = ground arith
after_refusal-twice m readable idle (err n) = ground arith

-- An instruction is sent a second time exactly where the first call fails with the text or the code
-- of a session that is busy, the state of sessions can be read, and one reading that was begun
-- within the budget finds this one idle, the pauses between them being half a second at least.
-- Nothing else is asked: no earlier answer of the session, and no call that stops it.
pub send-twice_iff :
    {A : Type 0} (first again : Result String A) (readable : Bool) (now settle : ℕ)
    (polls : List Poll)
    → Paced now polls
    → ((send_with_busy_settle first readable now settle polls again).0 ≡ 2) ↔ (
        (m : String) × (first ≡ err m)
        × SaysBusy m
        × (readable ≡ true)
        × IdleBy (now + settle) now polls)
unfolding send_with_busy_settle
send-twice_iff (ok a) again readable now settle polls paced =
    (λ h. absurd (ground arith), λ h. absurd (ground (arith, h.1)))
send-twice_iff (err m) again readable now settle polls paced =
    let t = after_refusal-twice m readable (settles (now + settle) now polls) again in
    let s = settles_iff (now + settle) now polls paced in
    (
      λ h. let (says, can, idle) = t.0 h in (m, refl, (says_busy_iff m).0 says, can, s.0 idle),
      λ h.
          let (n, same, says, can, idle) = h in
          let is : n ≡ m = ground (arith, same) in
          t.1 ((says_busy_iff m).1 (subst SaysBusy is says), can, s.1 idle),
    )
