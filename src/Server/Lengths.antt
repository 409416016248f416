-- ===== src/Server/Lengths.antt =====
-- The lengths of what LoadServerConfig loads.
use pisaller.Base.{
  ℕ, suc, ◌+◌, ◌≡◌, Option, none, some, List, [], ◌∷◌, ◌++◌, length, All, All-append, length-append,
  if_split, ==→eq, ◌==◌, arith,
}
use pisaller.Uuid.{remove_dashes, decode_string}
use pisaller.Server.{
  Checked, good, bad, Loaded, rejected, loaded, load_next, check_uuid, check_decoded,
  load_auth_uuids,
}

abbrev pub IsUuid : List ℕ → Type 0
IsUuid b = length b ≡ 16

abbrev IsChecked : Checked → Type 0
IsChecked (bad e) = Unit {0}
IsChecked (good b) = IsUuid b

check_decoded-IsChecked : (o : Option (List ℕ)) → IsChecked (check_decoded o)
check_decoded-IsChecked none = tt
check_decoded-IsChecked (some b) =
    if_split IsChecked (length b == 16) (λ e. ==→eq (length b) 16 e) λ e. tt

check_uuid-IsChecked : (s : List ℕ) → IsChecked (check_uuid s)
unfolding check_uuid
check_uuid-IsChecked s =
    if_split IsChecked (length (remove_dashes s) == 32)
      (λ e. check_decoded-IsChecked (decode_string (remove_dashes s))) λ e. tt

-- An error, or `n` UUIDs of 16 bytes.
abbrev pub AreLoaded : ℕ → Loaded → Type 0
AreLoaded n (rejected e) = Unit {0}
AreLoaded n (loaded bins) = All IsUuid bins × (length bins ≡ n)

load_next-AreLoaded :
    (n : ℕ) (r : Checked) (bins : List (List ℕ)) (more : List (List ℕ) → Loaded)
    → IsChecked r
    → All IsUuid bins
    → ((bins' : List (List ℕ)) → All IsUuid bins' → AreLoaded (length bins' + n) (more bins'))
    → AreLoaded (length bins + suc n) (load_next r bins more)
load_next-AreLoaded n (bad e) bins more c h rec = tt
load_next-AreLoaded n (good b) bins more c h rec =
    let e : length bins + suc n ≡ length (bins ++ (b ∷ [])) + n =
      omega (arith, length-append bins (b ∷ [])) in
    rw e (rec (bins ++ (b ∷ [])) (All-append IsUuid bins (b ∷ []) h (c, tt)))

pub load_auth_uuids-AreLoaded :
    (bins ss : List (List ℕ))
    → All IsUuid bins
    → AreLoaded (length bins + length ss) (load_auth_uuids bins ss)
unfolding load_auth_uuids
load_auth_uuids-AreLoaded bins [] h = (h, omega arith)
load_auth_uuids-AreLoaded bins (s ∷ ss) h =
    load_next-AreLoaded (length ss) (check_uuid s) bins (λ more. load_auth_uuids more ss)
      (check_uuid-IsChecked s) h (λ bins' k. load_auth_uuids-AreLoaded bins' ss k)
