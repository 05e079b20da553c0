-- ===== src/User/Steps.antt =====
-- The steps of a user program, one call after another.
use linux.Base.{ℕ, ◌≡◌, ap, ◌∙◌, none, some}
use linux.User.{Program, System, ◌>>=◌, ◌>>◌, pure, result, ece391_strlen, ece391_fdputs}

pub bind_lem :
    {S A B : Type 0} (p : Program S A) (f : A → Program S B) (s s' : S) (a : A)
    → p s ≡ some (s', a)
    → (p >>= f) s ≡ f a s'
bind_lem p f s s' a e = ap (λ o. elim o [ none ↦ none | some (s1, b) ↦ f b s1 ]) e

-- A text whose length is found is written, and what the call returns is dropped.
pub fdputs_lem :
    {S : Type 0} (sys : System S) (s s' : S) (fd str len r : ℕ)
    → ece391_strlen sys.fuel (sys.memory s) str ≡ some len
    → sys.ece391_write fd str len s ≡ some (s', r)
    → ece391_fdputs sys fd str s ≡ some (s', tt)
unfolding ece391_fdputs
fdputs_lem sys s s' fd str len r found written =
    ap (λ o. (result sys o >>= (λ n. sys.ece391_write fd str n >> pure tt)) s) found
    ∙ bind_lem (sys.ece391_write fd str len) (λ done. pure tt) s s' r written
