-- ===== src/Run/Agree.antt =====
-- A relational logic for two runs of one target over two builds of libsecp: from the same reader
-- and log both return, with related results, the same reader and the same log, having appended at
-- most a given number of bytes. With one build on both sides this is total correctness.
use diffsecp.Prelude.{ℕ, ◌+◌, ◌-◌, ◌≤◌, List, Option, some, Bool, ◌≡◌, refl, ◌∙◌, ap}
use diffsecp.Prelude.{arith, leb, leb→le, [], subst, ◌++◌, sym, true, false, if◌then◌else◌}
use mathlib.Core.List.{append-nil, append_assoc}
use diffsecp.Transcript.Log as Log
use diffsecp.Transcript.Log.{log}
use diffsecp.Reader.Stream as Stream
use diffsecp.Run.{World, M, pure, ◌>>=◌, lift}

pub record IsValid (w : World) : Type 0 where
  pub reader : Stream.IsValid w.r
  pub transcript : Log.IsValid w.t

-- The two runs stand at the same point of the input, and have logged the same, each in memory of
-- its own, in which the bytes behind the log may differ.
pub record Twins (w w' : World) : Type 0 where
  pub same_reader : w'.r ≡ w.r
  pub same_log : log w'.t ≡ log w.t
  pub same_len : w'.t.len ≡ w.t.len
  pub same_cap : w'.t.cap ≡ w.t.cap
  pub valid : IsValid w
  pub valid' : Log.IsValid w'.t

-- Where the two runs end, the left one from `w`.
pub record Ends {A B : Type 0} (n : ℕ) (Q : A → B → Type 0) (w : World) (left : Option (A × World))
    (right : Option (B × World)) : Type 0 where
  pub a : A
  pub b : B
  pub after : World
  pub after' : World
  pub runs_left : left ≡ some (a, after)
  pub runs_right : right ≡ some (b, after')
  pub related : Q a b
  pub twins : Twins after after'
  pub written : after.t.len ≤ w.t.len + n
  pub ext : List ℕ
  pub appends : log after.t ≡ log w.t ++ ext
  pub kept_cap : after.t.cap ≡ w.t.cap
  pub shrinks : after.r.left ≤ w.r.left

-- Both runs write at most `n` bytes, and end with results that `Q` relates.
pub record Agree {A B : Type 0} (n : ℕ) (Q : A → B → Type 0) (m : M A) (m' : M B) : Type 0 where
  pub at : (w w' : World) → Twins w w' → w.t.len + n ≤ w.t.cap → Ends n Q w (m w) (m' w')

-- A step that knows nothing of libsecp: both runs get the same value.
abbrev pub Does : {A : Type 0} → ℕ → (A → Type 0) → M A → Type 0
Does n P m = Agree n (λ a b. (a ≡ b) × P a) m m

abbrev pub Any : {A : Type 0} → A → Type 0
Any a = Unit {0}

pub Agree-pure :
    {A B : Type 0} {n : ℕ} {Q : A → B → Type 0} (a : A) (b : B)
    → Q a b
    → Agree n Q (pure a) (pure b)
Agree-pure a b q = record {
  at = λ w w' v room. record {
    a = a;
    b = b;
    after = w;
    after' = w';
    runs_left = refl;
    runs_right = refl;
    related = q;
    twins = v;
    written = omega arith;
    ext = [];
    appends = sym (append-nil (log w.t));
    kept_cap = refl;
    shrinks = omega arith;
  };
}

-- Where the two parts end, the whole ends.
pub Ends-bind :
    {A B C D : Type 0} {P : A → B → Type 0} {Q : C → D → Type 0} (m : M A) (m' : M B) (f : A → M C)
    (g : B → M D) (n k : ℕ) {N : ℕ} {w w' : World}
    → n + k ≤ N
    → (e : Ends n P w (m w) (m' w')) → Ends k Q e.after (f e.a e.after) (g e.b e.after')
    → Ends N Q w ((m >>= f) w) ((m' >>= g) w')
Ends-bind m m' f g n k {w} fits e e' = record {
  a = e'.a;
  b = e'.b;
  after = e'.after;
  after' = e'.after';
  runs_left = rw (e.runs_left, ◌>>=◌) e'.runs_left;
  runs_right = rw (e.runs_right, ◌>>=◌) e'.runs_right;
  related = e'.related;
  twins = e'.twins;
  written = omega (arith, e.written, e'.written);
  ext = e.ext ++ e'.ext;
  appends = e'.appends ∙ ap (λ l. l ++ e'.ext) e.appends ∙ append_assoc (log w.t) e.ext e'.ext;
  kept_cap = e'.kept_cap ∙ e.kept_cap;
  shrinks = omega (arith, e.shrinks, e'.shrinks);
}

module _ {A B C D : Type 0} {P : A → B → Type 0} {Q : C → D → Type 0} {f : A → M C}
    {g : B → M D} where
  -- Sequencing: the first part writes `n` of the `N` bytes, the rest has what is left.
  pub Agree-bind_le :
      (n : ℕ) {k N : ℕ} {m : M A} {m' : M B}
      → n + k ≤ N
      → Agree n P m m'
      → ((a : A) (b : B) → P a b → Agree k Q (f a) (g b))
      → Agree N Q (m >>= f) (m' >>= g)
  Agree-bind_le n {k} {N} {m} {m'} fits first rest = record {
    at = λ w w' v room.
        let e = first.at w w' v (omega arith) in
        Ends-bind m m' f g n k fits e (
          (rest e.a e.b e.related).at e.after e.after' e.twins
            (omega (arith, e.written, e.kept_cap)));
  }

  -- The same where both counts are numerals, so that the test computes.
  pub Agree-bind :
      (n : ℕ) {N : ℕ} {m : M A} {m' : M B}
      → Agree n P m m'
      → leb n N ≡ true
      → ((a : A) (b : B) → P a b → Agree (N - n) Q (f a) (g b))
      → Agree N Q (m >>= f) (m' >>= g)
  Agree-bind n {N} first fits rest =
      let within : n ≤ N = leb→le n N fits in Agree-bind_le n (omega arith) first rest

-- A value of libsecp that both builds return, as `R` relates them.
abbrev pub Both : {A B : Type 0} → (A → B → Type 0) → Option A → Option B → Type 0
Both {A} {B} R o o' = (a : A) × (b : B) × (o ≡ some a) × (o' ≡ some b) × R a b

-- A value of libsecp that both builds return alike.
abbrev pub Shared : {A : Type 0} → (A → Type 0) → Option A → Option A → Type 0
Shared {A} P o o' = (a : A) × (o ≡ some a) × (o' ≡ some a) × P a

pub Agree-call :
    {A B C D : Type 0} {R : A → B → Type 0} {N : ℕ} {Q : C → D → Type 0} {f : A → M C} {g : B → M D}
    {o : Option A} {o' : Option B}
    → Both R o o'
    → ((a : A) (b : B) → R a b → Agree N Q (f a) (g b))
    → Agree N Q (lift o >>= f) (lift o' >>= g)
Agree-call {f} {g} (a, b, e, e', r) rest =
    rw (e, e') (record { at = λ w w' v room. (rest a b r).at w w' v room })

-- A call whose value is the result.
pub Agree-lift :
    {A B : Type 0} {R : A → B → Type 0} {N : ℕ} {o : Option A} {o' : Option B}
    → Both R o o'
    → Agree N R (lift o) (lift o')
Agree-lift (a, b, e, e', r) =
    rw (e, e') (record { at = λ w w' v room. (Agree-pure a b r).at w w' v room })

pub Agree-shared :
    {A C D : Type 0} {P : A → Type 0} {N : ℕ} {Q : C → D → Type 0} {f : A → M C} {g : A → M D}
    {o o' : Option A}
    → Shared P o o'
    → ((a : A) → P a → Agree N Q (f a) (g a))
    → Agree N Q (lift o >>= f) (lift o' >>= g)
Agree-shared (a, e, e', h) rest =
    rw (e, e') (record { at = λ w w' v room. (rest a h).at w w' v room })

pub Agree-step :
    {A C D : Type 0} {P : A → Type 0} {Q : C → D → Type 0} {f : A → M C} {g : A → M D} (n : ℕ)
    {N : ℕ} {m : M A}
    → Does n P m
    → leb n N ≡ true
    → ((a : A) → P a → Agree (N - n) Q (f a) (g a))
    → Agree N Q (m >>= f) (m >>= g)
Agree-step {Q} {f} {g} n {N} d fits rest =
    Agree-bind n d fits (λ a b r. subst (λ x. Agree (N - n) Q (f a) (g x)) r.0 (rest a r.1))

pub Agree-weaken :
    {A B : Type 0} {n N : ℕ} {Q : A → B → Type 0} {m : M A} {m' : M B}
    → n ≤ N
    → Agree n Q m m'
    → Agree N Q m m'
Agree-weaken h r = record {
  at = λ w w' v room.
      let e = r.at w w' v (omega arith) in
      record {
        a = e.a;
        b = e.b;
        after = e.after;
        after' = e.after';
        runs_left = e.runs_left;
        runs_right = e.runs_right;
        related = e.related;
        twins = e.twins;
        written = omega (arith, e.written);
        ext = e.ext;
        appends = e.appends;
        kept_cap = e.kept_cap;
        shrinks = e.shrinks;
      };
}

pub Agree-if :
    {A B : Type 0} {n : ℕ} {Q : A → B → Type 0} {m k : M A} {m' k' : M B} (b : Bool)
    → (b ≡ true → Agree n Q m m')
    → (b ≡ false → Agree n Q k k')
    → Agree n Q (if b then m else k) (if b then m' else k')
Agree-if true h h' = h refl
Agree-if false h h' = h' refl

-- A weaker relation between the results.
pub Agree-post :
    {A B : Type 0} {n : ℕ} {P Q : A → B → Type 0} {m : M A} {m' : M B}
    → Agree n P m m'
    → ((a : A) (b : B) → P a b → Q a b)
    → Agree n Q m m'
Agree-post r weaker = record {
  at = λ w w' v room.
      let e = r.at w w' v room in
      record {
        a = e.a;
        b = e.b;
        after = e.after;
        after' = e.after';
        runs_left = e.runs_left;
        runs_right = e.runs_right;
        related = weaker e.a e.b e.related;
        twins = e.twins;
        written = e.written;
        ext = e.ext;
        appends = e.appends;
        kept_cap = e.kept_cap;
        shrinks = e.shrinks;
      };
}
