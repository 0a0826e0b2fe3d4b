-- ===== src/Net/Tcp/Handles.antt =====
-- The connections of kernel/net/tcp.cpp by their addresses, which are the socket descriptors.
use mesa_os.Prelude.{
  ℕ, ◌≡◌, sym, ap, ◌∙◌, some, List, [], ◌∷◌, ◌==◌, Bool-cases, if_true, if_false, inl, inr, ==_iff,
  ==_refl,
}
use mesa_os.Net.Tcp.Types.{TcpConnection, at_handle, store}

-- What is found under a descriptor has it as its address.
pub at_handle_handle :
    (cs : List TcpConnection) (h : ℕ) (c : TcpConnection) → at_handle cs h ≡ some c → c.handle ≡ h
unfolding at_handle
at_handle_handle [] h c e = cc
at_handle_handle (d ∷ cs) h c e = elim (Bool-cases (d.handle == h)) [
  | inl here ↦
      let found : some d ≡ some c = sym (if_true _ _ here) ∙ e in
      let same : d ≡ c = cc in ap (λ (x : TcpConnection). x.handle) (sym same) ∙ (==_iff _ h).0 here
  | inr away ↦ at_handle_handle cs h c (sym (if_false _ _ away) ∙ e)
]

-- What is written through a descriptor is found under it.
at_handle-store :
    (cs : List TcpConnection) (c c' : TcpConnection)
    → at_handle cs c'.handle ≡ some c
    → at_handle (store cs c') c'.handle ≡ some c'
unfolding at_handle store
at_handle-store [] c c' e = cc
at_handle-store (d ∷ cs) c c' e = elim (Bool-cases (d.handle == c'.handle)) [
  | inl here ↦ rw here (if_true _ _ (==_refl c'.handle))
  | inr away ↦ rw away (if_false _ _ away ∙ at_handle-store cs c c' (sym (if_false _ _ away) ∙ e))
]

pub stored :
    (cs : List TcpConnection) (fd : ℕ) (c c' : TcpConnection)
    → c'.handle ≡ fd
    → at_handle cs fd ≡ some c
    → at_handle (store cs c') fd ≡ some c'
stored cs fd c c' own found = rw (← own) (at_handle-store cs c c' (rw own found))
