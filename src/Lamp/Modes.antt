-- ===== src/Lamp/Modes.antt =====
-- tools/fake_dlight_server.py: how many commands a failure mode affects.
use dlight_client.Common.{
  ℕ, zero, suc, ◌≡◌, ◌+◌, refl, ap, ◌∙◌, none, some, List, [], ◌∷◌, ◌++◌, ℤ, pos, negsuc, false,
  arith,
}
use dlight_client.Lamp.{
  Mode, normal, is_normal, hang, reset, drop, FailureModes, set_mode, count_down, take,
}

-- The modes of the next commands.
abbrev pub modes : ℕ → FailureModes → List Mode
modes zero f = []
modes (suc n) f = let (mode, rest) = take f in mode ∷ modes n rest

abbrev pub repeat {ℓ} : {A : Type ℓ} → ℕ → A → List A
repeat zero x = []
repeat (suc n) x = x ∷ repeat n x

-- How many commands a count stands for.
abbrev pub affected : ℤ → ℕ
affected (pos (suc n)) = suc n
affected _ = 1

modes_normal : (k : ℕ) → modes k (set_mode normal none) ≡ repeat k normal
unfolding take set_mode
modes_normal zero = refl
modes_normal (suc k) = rw (modes_normal k)

-- A mode other than normal, in force for some more commands.
abbrev counting : Mode → ℤ → FailureModes
counting m c = record { mode = m; remaining = some c }

modes_step :
    (m : Mode) (c : ℤ) (n : ℕ)
    → is_normal m ≡ false
    → modes (suc n) (counting m c) ≡ m ∷ modes n (count_down m c)
unfolding take
modes_step normal c n h = absurd (ground arith)
modes_step hang c n h = refl
modes_step reset c n h = refl
modes_step drop c n h = refl

modes_next :
    (m : Mode) (c : ℤ) (j n : ℕ)
    → is_normal m ≡ false
    → j ≡ suc n
    → modes j (counting m c) ≡ m ∷ modes n (count_down m c)
modes_next m c j n h e = ap (λ i. modes i (counting m c)) e ∙ modes_step m c n h

modes-counting :
    (m : Mode) (c : ℤ) (k : ℕ)
    → is_normal m ≡ false
    → modes (affected c + k) (counting m c) ≡ repeat (affected c) m ++ repeat k normal
modes-counting m (pos zero) k h =
    modes_next m (pos 0) (1 + k) k h (omega arith) ∙ rw (modes_normal k) refl
modes-counting m (pos (suc zero)) k h =
    modes_next m (pos 1) (1 + k) k h (omega arith) ∙ rw (modes_normal k) refl
modes-counting m (pos (suc (suc n))) k h =
    modes_next m (pos (suc (suc n))) (suc (suc n) + k) (suc n + k) h (omega arith)
    ∙ rw (modes-counting m (pos (suc n)) k h) refl
modes-counting m (negsuc n) k h =
    modes_next m (negsuc n) (1 + k) k h (omega arith) ∙ rw (modes_normal k) refl

-- A failure mode that is set with a positive count affects exactly that many commands, and with any
-- other count exactly one; the commands after those are answered as usual.
pub modes-set_mode :
    (m : Mode) (c : ℤ) (k : ℕ)
    → is_normal m ≡ false
    → modes (affected c + k) (set_mode m (some c)) ≡ repeat (affected c) m ++ repeat k normal
unfolding set_mode
modes-set_mode m c k h = rw h (modes-counting m c k h)
