-- ===== src/Plt/Chain/Free.antt =====
-- `free_stubs`: what it resets and what it frees.
use liblink.Base.{◌≡◌, refl, sym, ◌∙◌, ◌≢◌, List, [], ◌∷◌, ◌++◌, arith, ok, ap}
use liblink.Types.{Section, Stub}
use liblink.Plt.{freed_before_last, free_stubs}

freed_before_last-append :
    (s : Stub) (ss : List Stub) → (last : Stub) × (freed_before_last s ss ++ last ∷ [] ≡ s ∷ ss)
unfolding freed_before_last
freed_before_last-append s [] = (s, refl)
freed_before_last-append s (x ∷ xs) =
    let (last, e) = freed_before_last-append x xs in (last, ap (λ l. s ∷ l) e)

free_stubs-cons :
    (section : Section) (s : Stub) (ss : List Stub)
    → section.info.stubs ≡ s ∷ ss
    → section.info.nstubs ≢ 0
    → free_stubs section
      ≡ ok (
        record section { info = record section.info { stubs = []; nstubs = 0 } },
        freed_before_last s ss,
      )
unfolding free_stubs
free_stubs-cons section s ss e ne = rw e (ground arith)

-- On a section with stubs `free_stubs` empties the chain and frees every stub but the last, which
-- nothing points at any more.
pub free_stubs_leaks :
    (section : Section)
    → section.info.nstubs ≢ 0
    → section.info.stubs ≢ []
    → (freed : List Stub) × (last : Stub) × (free_stubs section
        ≡ ok (record section { info = record section.info { stubs = []; nstubs = 0 } }, freed))
      × (freed ++ last ∷ [] ≡ section.info.stubs)
free_stubs_leaks section ne nonempty = go section.info.stubs refl
  where
    go :
        (l : List Stub)
        → section.info.stubs ≡ l
        → (freed : List Stub) × (last : Stub) × (free_stubs section
            ≡ ok (record section { info = record section.info { stubs = []; nstubs = 0 } }, freed))
          × (freed ++ last ∷ [] ≡ section.info.stubs)
    go [] e = absurd (nonempty e)
    go (s ∷ ss) e =
        let (last, split) = freed_before_last-append s ss in
        (freed_before_last s ss, last, free_stubs-cons section s ss e ne, split ∙ sym e)
