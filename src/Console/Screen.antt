-- ===== src/Console/Screen.antt =====
-- The cursor of cgaputc in console.c.
use operating_system.Common.{ℕ, ◌+◌, ◌≤◌, ◌<◌, ◌≡◌, ◌⊎◌}
use operating_system.Console.{Cga}

-- The text before the cursor, with `shift` cells that went off the top; the cursor is on the screen,
-- and no word behind the 24 rows changed.
pub record Shows (g h : Cga) (shift : ℕ) (k : Cga) : Type 0 where
  pub row : (shift ≡ 0) ⊎ (shift ≡ 80)
  pub at : k.pos + shift ≡ h.pos
  pub inside : k.pos < 1920
  pub text : (x : ℕ) → x < k.pos → k.crt x ≡ h.crt (x + shift)
  pub blank : k.crt k.pos ≡ 0x720
  pub below : (x : ℕ) → 1920 ≤ x → k.crt x ≡ g.crt x
