-- ===== src/Fingerprints.antt =====
-- internal/transport/utls.go: the client hello that a configuration's name stands for.
use pisaller.Base.{ℕ, Option, none, some, List, [], ◌∷◌, ◌++◌, if◌then◌else◌}
use pisaller.Base.Text.{list_eq}

pub data ClientHello : Type 0 where
  hello_chrome_120 : ClientHello
  hello_chrome_112 : ClientHello
  hello_firefox_120 : ClientHello
  hello_firefox_115 : ClientHello
  hello_ios_17_0 : ClientHello
  hello_ios_16_0 : ClientHello
  hello_edge_120 : ClientHello
  hello_edge_112 : ClientHello
  hello_safari_16_0 : ClientHello
  hello_safari_17_0 : ClientHello

abbrev chrome : List ℕ
chrome = b'c' ∷ b'h' ∷ b'r' ∷ b'o' ∷ b'm' ∷ b'e' ∷ b'_' ∷ []

abbrev firefox : List ℕ
firefox = b'f' ∷ b'i' ∷ b'r' ∷ b'e' ∷ b'f' ∷ b'o' ∷ b'x' ∷ b'_' ∷ []

abbrev ios : List ℕ
ios = b'i' ∷ b'o' ∷ b's' ∷ b'_' ∷ []

abbrev edge : List ℕ
edge = b'e' ∷ b'd' ∷ b'g' ∷ b'e' ∷ b'_' ∷ []

abbrev safari : List ℕ
safari = b's' ∷ b'a' ∷ b'f' ∷ b'a' ∷ b'r' ∷ b'i' ∷ b'_' ∷ []

unfoldable pub get_client_hello_id : List ℕ → Option ClientHello
get_client_hello_id name =
    if list_eq name (chrome ++ (b'1' ∷ b'2' ∷ b'0' ∷ []))
    then some hello_chrome_120
    else if list_eq name (chrome ++ (b'1' ∷ b'1' ∷ b'2' ∷ []))
    then some hello_chrome_112
    else if list_eq name (firefox ++ (b'1' ∷ b'2' ∷ b'0' ∷ []))
    then some hello_firefox_120
    else if list_eq name (firefox ++ (b'1' ∷ b'1' ∷ b'5' ∷ []))
    then some hello_firefox_115
    else if list_eq name (ios ++ (b'1' ∷ b'7' ∷ []))
    then some hello_ios_17_0
    else if list_eq name (ios ++ (b'1' ∷ b'6' ∷ []))
    then some hello_ios_16_0
    else if list_eq name (edge ++ (b'1' ∷ b'2' ∷ b'0' ∷ []))
    then some hello_edge_120
    else if list_eq name (edge ++ (b'1' ∷ b'1' ∷ b'2' ∷ []))
    then some hello_edge_112
    else if list_eq name (safari ++ (b'1' ∷ b'6' ∷ []))
    then some hello_safari_16_0
    else if list_eq name (safari ++ (b'1' ∷ b'7' ∷ []))
    then some hello_safari_17_0
    else none
