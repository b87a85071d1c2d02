-- ===== src/Http/Answers.antt =====
-- Preconditions and postconditions of handlers: a call whose error is answered.
use goauth_server.Exec.{Error, World, M, Result, ok, err, pure, attempt, ◌>>=◌}
use goauth_server.Exec.Hoare.{Post, Triple, Triple-bind, Triple-pure}
use goauth_server.Exec.Facts.{Any}
use goauth_server.Exec.Keeps.{Keeps}
use goauth_server.Http.{Gate, next, abort, go_on, and_next, or_answer, answer}

module _ {A B : Type 0} {P : World → Type 0} {Q : B → World → Type 0}
    {E : Error → World → Type 0} where
  pub Triple-or_answer :
      (R : A → World → Type 0) (F : Error → World → Type 0) (m : M A) (g : Error → B) (f : A → M B)
      → Triple P m R F
      → ((a : A) → Triple (R a) (f a) Q E)
      → ((r : Error) (w : World) → F r w → Q (g r) w)
      → Triple P (or_answer m g f) Q E
  unfolding or_answer attempt ◌>>=◌ pure
  Triple-or_answer R F m g f hm hf hg = record { run = λ w p. go (m w) (hm.run w p) }
    where
      go : (r : Result A × World) → Post R F r → Post Q E (answer g f r.0 r.1)
      go (ok a, w) h = (hf a).run w h
      go (err r, w) h = hg r w h

module _ {A B : Type 0} {P : World → Type 0} where
  -- An invariant outlives a call whose error is answered.
  pub Keeps-or_answer :
      (m : M A) (g : Error → B) (f : A → M B)
      → Keeps P m
      → ((a : A) → Keeps P (f a))
      → Keeps P (or_answer m g f)
  unfolding or_answer attempt ◌>>=◌ pure
  Keeps-or_answer m g f km kf = record { at = λ w p. go (m w) (km.at w p) }
    where
      go : (r : Result A × World) → P r.1 → P (answer g f r.0 r.1).1
      go (ok a, w) h = (kf a).at w h
      go (err r, w) h = h

-- What holds where a middleware goes on; nothing is said of its abort.
abbrev pub Passes : {A : Type 0} → (A → World → Type 0) → Gate A → World → Type 0
Passes Q (next a) w = Q a w
Passes Q (abort n) w = Unit {0}

module _ {A B : Type 0} {P : World → Type 0} {Q : B → World → Type 0} where
  pub Triple-and_next :
      (R : A → World → Type 0) (m : M (Gate A)) (f : A → M (Gate B))
      → Triple P m (Passes R) Any
      → ((a : A) → Triple (R a) (f a) (Passes Q) Any)
      → Triple P (and_next m f) (Passes Q) Any
  unfolding and_next
  Triple-and_next R m f hm hf = Triple-bind (Passes R) m _ hm after
    where
      after : (g : Gate A) → Triple (Passes R g) (go_on g f) (Passes Q) Any
      after (next a) = hf a
      after (abort n) = Triple-pure (abort n) λ w p. tt
