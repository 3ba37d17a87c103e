-- ===== src/Cluster/Tests.antt =====
-- Runs of lua-cluster.c, and its theorem at concrete requests.
use ddzproject.Prelude.{ℕ, ◌≡◌, refl, List, [], ◌∷◌, replicate, arith, length-replicate}
use ddzproject.Cluster.{
  number, name, raised, lpackrequest, lunpackrequest, invalid, packreq_string, unpackreq_string,
}
use ddzproject.Cluster.Request.{Arrives, lunpackrequest-lpackrequest}

abbrev login : List ℕ
login = 108 ∷ 111 ∷ 103 ∷ 105 ∷ 110 ∷ []

-- Of two whole parts and a bit.
abbrev long_message : List ℕ
long_message = replicate 70000 7

lunpackrequest-lpackrequest_example :
    Arrives (name login) 5 long_message (lpackrequest (name login) 5 long_message)
lunpackrequest-lpackrequest_example =
    lunpackrequest-lpackrequest (name login) 5 long_message (omega arith, omega arith) (omega arith)
      (omega arith) (omega (arith, length-replicate {A = ℕ} 70000 7))

no_name : lpackrequest (name []) 5 (1 ∷ []) ≡ raised
unfolding lpackrequest packreq_string
no_name = refl

no_session : lpackrequest (number 8) 0 (1 ∷ []) ≡ raised
unfolding lpackrequest
no_session = refl

-- A name that is longer than the packet.
cut_name : lunpackrequest (0x80 ∷ 9 ∷ 108 ∷ 111 ∷ []) ≡ invalid
unfolding lunpackrequest unpackreq_string
cut_name = refl
