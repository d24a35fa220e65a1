-- ===== src/Server/Auth/Address.antt =====
-- Behind a trusted proxy: which part of the header counts.
use deltaship.Prelude.{ℕ, Bool, not, ◌&&◌, ◌==◌}
use deltaship.Prelude.Text.{Text}
use deltaship.Server.Auth.{is_blank, trim_start, trim_end}

-- A character of an address: neither a comma nor a blank.
abbrev pub is_hop_char : ℕ → Bool
is_hop_char c = not (c == b',') && not (is_blank c)

abbrev trim : Text → Text
trim s = trim_end (trim_start s)
