-- ===== src/MainProcess/Workers.antt =====
-- How many workers of a function there are.
use fcgi_cpp_appserver.Common.{
  ℕ, ◌+◌, ◌≡◌, refl, subst, inl, inr, Bool-cases, none, some, [], ◌∷◌, ◌==◌, if◌then◌else◌, arith,
}
use fcgi_cpp_appserver.Common.Dict.{All}
use fcgi_cpp_appserver.MainProcess.{Workers, insert, find, erase}

abbrev pub count : ℕ → Workers → ℕ
count f [] = 0
count f ((pid, g) ∷ ws) = if g == f then count f ws + 1 else count f ws

pub count-insert :
    (pid f g : ℕ) (ws : Workers)
    → find pid ws ≡ none
    → count g (insert pid f ws) ≡ (if f == g then count g ws + 1 else count g ws)
unfolding insert find
count-insert pid f g [] h = refl
count-insert pid f g ((j, k) ∷ ws) h = ground (arith, count-insert pid f g ws)

pub count-erase :
    (pid f g : ℕ) (ws : Workers)
    → find pid ws ≡ some f
    → count g ws ≡ (if f == g then count g (erase pid ws) + 1 else count g (erase pid ws))
unfolding erase find
count-erase pid f g [] h = absurd (cc)
count-erase pid f g ((j, k) ∷ ws) h = ground (arith, count-erase pid f g ws)

pub find-insert :
    (pid f other : ℕ) (ws : Workers)
    → find other ws ≡ none
    → ¬ (pid ≡ other)
    → find other (insert pid f ws) ≡ none
unfolding insert find
find-insert pid f other [] h k = ground arith
find-insert pid f other ((j, g) ∷ ws) h k = ground (arith, find-insert pid f other ws)

-- All the workers' functions are of a kind.
abbrev pub AllOf : (ℕ → Type 0) → Workers → Type 0
AllOf P = All (λ (w : ℕ × ℕ). P w.1)

pub AllOf-insert :
    (P : ℕ → Type 0) (pid f : ℕ) (ws : Workers) → P f → AllOf P ws → AllOf P (insert pid f ws)
unfolding insert
AllOf-insert P pid f [] p h = (p, tt)
AllOf-insert P pid f ((j, g) ∷ ws) p h = ground (arith, AllOf-insert P pid f ws p)

pub AllOf-erase : (P : ℕ → Type 0) (pid : ℕ) (ws : Workers) → AllOf P ws → AllOf P (erase pid ws)
unfolding erase
AllOf-erase P pid [] h = tt
AllOf-erase P pid ((j, g) ∷ ws) h = ground (arith, AllOf-erase P pid ws)

pub AllOf-find :
    (P : ℕ → Type 0) (pid f : ℕ) (ws : Workers) → AllOf P ws → find pid ws ≡ some f → P f
unfolding find
AllOf-find P pid f [] h e = absurd (cc)
AllOf-find P pid f ((j, g) ∷ ws) h e = elim (Bool-cases (j == pid)) [
  | inl same ↦ let k : g ≡ f = ground arith in subst P k h.0
  | inr other ↦ AllOf-find P pid f ws h.1 (ground arith)
]
