-- ===== src/Receiver/Connections/Ids.antt =====
-- hangle.go: the identifiers of clients and goroutines under the changes of their lists.
use nav_control.Base.{
  suc, ◌≡◌, refl, ap, subst, ◌∙◌, List, [], ◌∷◌, ◌++◌, length, true, false, if◌then◌else◌, ◌||◌,
  arith, Bool-cases, inl, inr,
}
use nav_control.Go.Text.{Text, text_eq}
use nav_control.Receiver.Instance.{ClientInfo, has_address}
use nav_control.Receiver.Connections.{Handler, put_client, delete_client, close_at, without_handler}

unfoldable pub client_ids : List ClientInfo → List Text
client_ids [] = []
client_ids (c ∷ cs) = c.id ∷ client_ids cs

unfoldable pub handler_ids : List Handler → List Text
handler_ids [] = []
handler_ids (h ∷ hs) = h.client_id ∷ handler_ids hs

unfoldable pub addresses : List Handler → List Text
addresses [] = []
addresses (h ∷ hs) = h.address ∷ addresses hs

-- No two texts are equal.
unfoldable pub AreDistinct : List Text → Type 0
AreDistinct [] = Unit {0}
AreDistinct (t ∷ ts) = (has_address t ts ≡ false) × AreDistinct ts

unfoldable pub without_id : Text → List Text → List Text
without_id id [] = []
without_id id (t ∷ ts) = let later = without_id id ts in if text_eq t id then later else t ∷ later

pub client_ids-delete_client :
    (id : Text) (cs : List ClientInfo)
    → client_ids (delete_client id cs) ≡ without_id id (client_ids cs)
unfolding client_ids delete_client without_id
client_ids-delete_client id [] = refl
client_ids-delete_client id (c ∷ cs) = ground (arith, client_ids-delete_client id cs)

pub handler_ids-without_handler :
    (id : Text) (hs : List Handler)
    → handler_ids (without_handler id hs) ≡ without_id id (handler_ids hs)
unfolding handler_ids without_handler without_id
handler_ids-without_handler id [] = refl
handler_ids-without_handler id (h ∷ hs) = ground (arith, handler_ids-without_handler id hs)

pub client_ids-put_client :
    (c : ClientInfo) (cs : List ClientInfo)
    → has_address c.id (client_ids cs) ≡ false
    → client_ids (put_client c cs) ≡ client_ids cs ++ (c.id ∷ [])
unfolding client_ids put_client has_address
client_ids-put_client c [] h = refl
client_ids-put_client c (d ∷ ds) h = ground (arith, h, client_ids-put_client c ds)

pub handler_ids-append :
    (hs : List Handler) (h : Handler)
    → handler_ids (hs ++ (h ∷ [])) ≡ handler_ids hs ++ (h.client_id ∷ [])
unfolding handler_ids
handler_ids-append [] h = refl
handler_ids-append (g ∷ hs) h = ap (◌∷◌ g.client_id) (handler_ids-append hs h)

pub handler_ids-close_at :
    (a : Text) (hs : List Handler) → handler_ids (close_at a hs) ≡ handler_ids hs
unfolding handler_ids close_at
handler_ids-close_at a [] = refl
handler_ids-close_at a (h ∷ hs) = ground (arith, handler_ids-close_at a hs)

pub length-close_at : (a : Text) (hs : List Handler) → length (close_at a hs) ≡ length hs
unfolding close_at
length-close_at a [] = refl
length-close_at a (h ∷ hs) = ap suc (length-close_at a hs)

pub text_eq→eq : (t u : Text) → text_eq t u ≡ true → t ≡ u
text_eq→eq [] [] h = refl
text_eq→eq [] (c ∷ u) h = absurd (ground (arith, h))
text_eq→eq (b ∷ t) [] h = absurd (ground (arith, h))
text_eq→eq (b ∷ t) (c ∷ u) h = ground (arith, h, text_eq→eq t u)

pub has_address-without_id :
    (a id : Text) (ts : List Text)
    → has_address a ts ≡ false
    → has_address a (without_id id ts) ≡ false
unfolding has_address without_id
has_address-without_id a id [] h = refl
has_address-without_id a id (t ∷ ts) h = ground (arith, h, has_address-without_id a id ts)

pub AreDistinct-without_id :
    (id : Text) (ts : List Text) → AreDistinct ts → AreDistinct (without_id id ts)
unfolding AreDistinct without_id
AreDistinct-without_id id [] h = tt
AreDistinct-without_id id (t ∷ ts) (h, hs) = elim (Bool-cases (text_eq t id)) [
  | inl same ↦ rw (without_id, same) (AreDistinct-without_id id ts hs)
  | inr other ↦
      rw (without_id, other) (has_address-without_id t id ts h, AreDistinct-without_id id ts hs)
]

pub text_eq_comm : (t u : Text) → text_eq t u ≡ text_eq u t
text_eq_comm [] [] = refl
text_eq_comm [] (c ∷ u) = refl
text_eq_comm (b ∷ t) [] = refl
text_eq_comm (b ∷ t) (c ∷ u) = ground (arith, text_eq_comm t u)

pub has_address-append :
    (a id : Text) (ts : List Text)
    → has_address a (ts ++ (id ∷ [])) ≡ (has_address a ts || text_eq id a)
unfolding has_address
has_address-append a id [] = ground arith
has_address-append a id (t ∷ ts) = ground (arith, has_address-append a id ts)

pub AreDistinct-append :
    (ts : List Text) (id : Text)
    → AreDistinct ts
    → has_address id ts ≡ false
    → AreDistinct (ts ++ (id ∷ []))
unfolding AreDistinct has_address
AreDistinct-append [] id h fresh = (refl, tt)
AreDistinct-append (t ∷ ts) id (h, hs) fresh = (
  has_address-append t id ts ∙ (rw (h, text_eq_comm id t) (ground (arith, fresh))),
  AreDistinct-append ts id hs (ground (arith, fresh)),
)

pub without_id-absent :
    (id : Text) (ts : List Text) → has_address id ts ≡ false → without_id id ts ≡ ts
unfolding has_address without_id
without_id-absent id [] h = refl
without_id-absent id (t ∷ ts) h = ground (arith, h, without_id-absent id ts)

pub length-without_id :
    (id : Text) (ts : List Text)
    → AreDistinct ts
    → has_address id ts ≡ true
    → suc (length (without_id id ts)) ≡ length ts
unfolding has_address without_id AreDistinct
length-without_id id [] d h = absurd (ground (arith, h))
length-without_id id (t ∷ ts) (d, ds) h = elim (Bool-cases (text_eq t id)) [
  | inl same ↦
      let absent : has_address id ts ≡ false =
        subst (λ u. has_address u ts ≡ false) (text_eq→eq t id same) d in
      rw (without_id, same, without_id-absent id ts absent) refl
  | inr other ↦
      rw (without_id, other) (ap suc (length-without_id id ts ds (ground (arith, h, other))))
]
