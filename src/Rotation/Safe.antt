-- ===== src/Rotation/Safe.antt =====
-- A rotation never loses the token that the owner has, whichever of its file operations fail.
use grasshopper.Rotation.{TokenFile, DataDir, whole}
use grasshopper.Base.{String, ◌≡◌, ◌⊎◌, true, some}

-- The token is the old one, or the old one is in the file beside the new one.
abbrev pub NotLost : TokenFile → String → DataDir → Type 0
NotLost t secret d =
    (d.token ≡ some t)
    ⊎ ((d.token ≡ some (record { is_regular = true; readable = true; content = secret }))
        × (d.previous ≡ some (whole t.content)))
