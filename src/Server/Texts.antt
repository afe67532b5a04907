-- ===== src/Server/Texts.antt =====
-- The texts that the server makes.
use rdows.Prelude.{ℕ, List, ◌++◌}
use rdows.Bytes.Texts.{text, decimal}

-- `format!("expected seq {expected}, got {actual}")`
unfoldable pub gap_text : ℕ → ℕ → List ℕ
gap_text expected actual =
    text "expected seq " ++ (decimal expected ++ (text ", got " ++ decimal actual))
