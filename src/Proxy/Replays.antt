-- ===== src/Proxy/Replays.antt =====
-- wayland/proxy_server.cpp: `handle_request_frame` keeps the table of objects live, for any bytes.
use vulkan_remote.Base.{
  ℕ, ◌≡◌, ◌≢◌, refl, sym, ap, ◌∙◌, ◌⊎◌, inl, inr, Bool, true, false, none, some, List, arith,
}
use vulkan_remote.Base.Tests.{◌==◌, if◌then◌else◌, if_true, if_false, equal_or_not}
use vulkan_remote.Base.Maps.{find, insert, erase, find-insert, find-erase}
use vulkan_remote.Proxy.{ObjectEntry}
use vulkan_remote.Proxy.Live.{IsLive, revived, killed}

-- The entry that is found after an insertion is the new one, or one that was there under another id.
pub insert-cases :
    (j id : ℕ) (n e : ObjectEntry) (objects : List (ℕ × ObjectEntry))
    → find j (insert id n objects) ≡ some e
    → ((j ≡ id) × (e ≡ n)) ⊎ ((j ≢ id) × (find j objects ≡ some e))
insert-cases j id n e objects f = elim (equal_or_not j id) [
  | inl same ↦
      let g : some n ≡ some e =
        sym (
          find-insert j id n objects
          ∙ if_true {c = j == id} (some n) (find j objects) (ground (arith, same)))
        ∙ f in
      inl (same, ground (arith, g))
  | inr other ↦ inr (
    other,
    sym (
          find-insert j id n objects
          ∙ if_false {c = j == id} (some n) (find j objects) (ground (arith, other)))
        ∙ f,
  )
]

erase-cases :
    (j id : ℕ) (e : ObjectEntry) (objects : List (ℕ × ObjectEntry))
    → find j (erase id objects) ≡ some e
    → (j ≢ id) × (find j objects ≡ some e)
erase-cases j id e objects f = elim (equal_or_not j id) [
  | inl same ↦ ground (
    arith,
    sym (
          find-erase j id objects
          ∙ if_true {c = j == id} none (find j objects) (ground (arith, same)))
        ∙ f,
  )
  | inr other ↦ (
    other,
    sym (
          find-erase j id objects
          ∙ if_false {c = j == id} none (find j objects) (ground (arith, other)))
        ∙ f,
  )
]

-- An inert stub.
pub stub-IsLive :
    (live : ℕ → Bool) (id : ℕ) (n : ObjectEntry) (objects : List (ℕ × ObjectEntry))
    → n.proxy ≡ 0
    → IsLive live objects
    → IsLive live (insert id n objects)
stub-IsLive live id n objects z ok = record {
  alive = λ j e f nz. elim (insert-cases j id n e objects f) [
    | inl (_, same) ↦ absurd (nz (ap (λ x. x.proxy) same ∙ z))
    | inr (_, g) ↦ ok.alive j e g nz
  ];
  apart = λ j j' e e' f f' nz same. elim (insert-cases j id n e objects f) [
    | inl (_, new) ↦ absurd (nz (ap (λ x. x.proxy) new ∙ z))
    | inr (_, g) ↦ elim (insert-cases j' id n e' objects f') [
      | inl (_, new) ↦ absurd (nz (same ∙ (ap (λ x. x.proxy) new ∙ z)))
      | inr (_, g') ↦ ok.apart j j' e e' g g' nz same
    ]
  ];
}

-- A new object with a proxy that was not live.
pub inserted-IsLive :
    (live : ℕ → Bool) (id : ℕ) (n : ObjectEntry) (objects : List (ℕ × ObjectEntry))
    → live n.proxy ≡ false
    → IsLive live objects
    → IsLive (revived n.proxy live) (insert id n objects)
inserted-IsLive live id n objects fresh ok = record {
  alive = λ j e f nz. elim (insert-cases j id n e objects f) [
    | inl (_, new) ↦
        if_true {c = e.proxy == n.proxy} true (live e.proxy) (ground (arith, ap (λ x. x.proxy) new))
    | inr (_, g) ↦ either_true (e.proxy == n.proxy) (live e.proxy) (ok.alive j e g nz)
  ];
  apart = λ j j' e e' f f' nz same. elim (insert-cases j id n e objects f) [
    | inl (here, new) ↦ elim (insert-cases j' id n e' objects f') [
      | inl (here', _) ↦ here ∙ sym here'
      | inr (_, g') ↦ clash e' j' g' (λ z. nz (same ∙ z)) (sym same ∙ ap (λ x. x.proxy) new)
    ]
    | inr (_, g) ↦ elim (insert-cases j' id n e' objects f') [
      | inl (_, new) ↦ clash e j g nz (same ∙ ap (λ x. x.proxy) new)
      | inr (_, g') ↦ ok.apart j j' e e' g g' nz same
    ]
  ];
}
  where
    either_true : (b c : Bool) → c ≡ true → (if b then true else c) ≡ true
    either_true true c e = refl
    either_true false c e = e

    clash :
        {A : Type 0} (e : ObjectEntry) (j : ℕ)
        → find j objects ≡ some e
        → e.proxy ≢ 0
        → e.proxy ≡ n.proxy
        → A
    clash e j g nz same = absurd (ground (arith, ok.alive j e g nz, ap live same ∙ fresh))

-- An id whose entry goes.
pub erase-IsLive :
    (live : ℕ → Bool) (id : ℕ) (objects : List (ℕ × ObjectEntry))
    → IsLive live objects
    → IsLive live (erase id objects)
erase-IsLive live id objects ok = record {
  alive = λ j e f nz. let (_, g) = erase-cases j id e objects f in ok.alive j e g nz;
  apart = λ j j' e e' f f' nz same.
      let (_, g) = erase-cases j id e objects f in
      let (_, g') = erase-cases j' id e' objects f' in ok.apart j j' e e' g g' nz same;
}

-- An id whose entry goes with a proxy that no other entry has.
pub erased-IsLive :
    (live : ℕ → Bool) (id p : ℕ) (objects : List (ℕ × ObjectEntry))
    → ((j : ℕ) (e : ObjectEntry) → j ≢ id → find j objects ≡ some e → e.proxy ≢ 0 → e.proxy ≢ p)
    → IsLive live objects
    → IsLive (killed p live) (erase id objects)
erased-IsLive live id p objects others ok = record {
  alive = λ j e f nz.
      let (other, g) = erase-cases j id e objects f in
      if_false {c = e.proxy == p} false (live e.proxy) (ground (arith, others j e other g nz))
      ∙ ok.alive j e g nz;
  apart = λ j j' e e' f f' nz same.
      let (_, g) = erase-cases j id e objects f in
      let (_, g') = erase-cases j' id e' objects f' in ok.apart j j' e e' g g' nz same;
}
