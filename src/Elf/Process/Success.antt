-- ===== src/Elf/Process/Success.antt =====
-- The phases of `resolveObject` (Elf.c).
use liblink.Base.{
  ℕ, ◌≡◌, ap, sym, ◌∙◌, inl, inr, Bool, Bool-cases, List, Option, length, leb, ok, >>=-eq-ok,
  ok-injective, exit_success,
}
use mathlib.Core.Bool.{true≢false}
use mathlib.Core.Path.{subst}
use liblink.Memory.{Memory}
use liblink.Types.{ObjectCode, SymbolStore}
use liblink.Linker.{Linker}
use liblink.Debug.{get_oc_info}
use liblink.Got.{fill_got, verify_got}
use liblink.Elf.Platform.{Platform}
use liblink.Elf.Protect.{Call}
use liblink.Elf.Protect.Exclusive.{AllExclusive, object_calls, mprotect_object_code-AllExclusive}
use liblink.Elf.Process.{Resolved, relocate_and_protect, resolve_object}

module _ (plat : Platform) (limit : ℕ) (dlsym : List ℕ → ℕ) (mmap : ℕ → ℕ → Option ℕ)
    (mprotect : Call → ℕ) (l : Linker) (oc : ObjectCode) (syms : SymbolStore) (m : Memory) where
  -- The phases that a successful run has passed, each on what the one before has left.
  pub record IsResolved (r : Resolved) : Type 0 where
    pub filled : (fill_got dlsym plat.store_addr l oc syms m).status ≡ exit_success
    pub symbols_kept : r.symbols ≡ (fill_got dlsym plat.store_addr l oc syms m).symbols
    pub verified :
        verify_got plat.load_addr oc r.symbols (fill_got dlsym plat.store_addr l oc syms m).memory
        ≡ ok exit_success
    pub relocated :
        plat.relocate_object_code r.symbols oc (fill_got dlsym plat.store_addr l oc syms m).memory
        ≡ ok (r.object, r.memory, exit_success)
    pub protected_all : r.protected ≡ object_calls r.object
    pub exclusive : AllExclusive r.protected

  -- The steps behind `fill_got`, for its symbols and memory.
  protected_lem :
      (syms' : SymbolStore) (m' : Memory) (r : Resolved)
      → relocate_and_protect plat limit dlsym mmap mprotect oc syms' m' ≡ ok r
      → r.status ≡ exit_success
      → (r.symbols ≡ syms')
        × (plat.relocate_object_code syms' oc m' ≡ ok (r.object, r.memory, exit_success))
        × (r.protected ≡ object_calls r.object)
        × AllExclusive r.protected
  unfolding relocate_and_protect
  protected_lem syms' m' r e done =
      let (x, relocated, e') = >>=-eq-ok (plat.relocate_object_code syms' oc m') _ e in
      let all = mprotect_object_code-AllExclusive mprotect x.0 in
      elim (Bool-cases x.2) [
        | inl failed ↦
            absurd
              (true≢false (ap (λ (y : Resolved). y.status) (ok-injective (rw failed at e')) ∙ done))
        | inr fine ↦
            let same = ok-injective (rw fine at e') in
            let status = ap (λ (y : Resolved). y.status) same ∙ done in
            let calls = ap (λ (y : Resolved). y.protected) same in
            let memory = ap (λ (y : Resolved). y.memory) same in
            let object = ap (λ (y : Resolved). y.object) same in
            (
              sym (ap (λ (y : Resolved). y.symbols) same),
              relocated
                  ∙ ap (λ (o : ObjectCode). ok (o, x.1, x.2)) object
                  ∙ ap (λ (g : Memory). ok (r.object, g, x.2)) memory
                  ∙ ap (λ (b : Bool). ok (r.object, r.memory, b)) fine,
              elim all.1 [
                | inl unprotected ↦ absurd (true≢false (sym unprotected ∙ status))
                | inr complete ↦ sym calls ∙ complete ∙ ap object_calls object
              ],
              subst AllExclusive calls all.0,
            )
      ]

  -- Where `resolveObject` returns EXIT_SUCCESS, it has filled the slots of the object, verified them,
  -- and relocated its code, and has then protected each mapped section and the global offset table;
  -- no memory has been made writable and executable at once.
  pub resolve_object-IsResolved :
      (r : Resolved)
      → resolve_object plat limit dlsym mmap mprotect l oc syms m ≡ ok r
      → r.status ≡ exit_success
      → IsResolved r
  unfolding resolve_object
  resolve_object-IsResolved r e done =
      let f = fill_got dlsym plat.store_addr l oc syms m in
      elim (Bool-cases (leb 256 (length (get_oc_info oc)))) [
        | inl long ↦ cc (rw long at e)
        | inr fits ↦ elim (Bool-cases f.status) [
          | inl unfilled ↦ absurd (
              true≢false
                (ap (λ (x : Resolved). x.status) (ok-injective (rw (fits, unfilled) at e)) ∙ done))
          | inr filled ↦
              let (unverified, checked, e') =
                >>=-eq-ok (verify_got plat.load_addr oc f.symbols f.memory) _
                  (rw (fits, filled) at e) in
              elim (Bool-cases unverified) [
                | inl failed ↦ absurd (
                    true≢false
                      (ap (λ (x : Resolved). x.status) (ok-injective (rw failed at e')) ∙ done))
                | inr fine ↦
                    let (kept, relocated, calls, exclusive) =
                      protected_lem f.symbols f.memory r (rw fine at e') done in
                    record {
                      filled = filled;
                      symbols_kept = kept;
                      verified = rw kept (checked ∙ ap ok fine);
                      relocated = rw kept relocated;
                      protected_all = calls;
                      exclusive = exclusive;
                    }
              ]
        ]
      ]
