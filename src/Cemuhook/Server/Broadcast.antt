-- ===== src/Cemuhook/Server/Broadcast.antt =====
-- What one round of `sendTask` of src/cemuhook/cemuhookserver.cpp delivers.
use steam_deck_gyro_dsu_exte.Base.{
  subst, append-nil, append_assoc, ◌<◌, ℕ, ◌^◌, List, [], ◌∷◌, ◌++◌, ◌≡◌, refl, sym, ◌∙◌, All,
}
use steam_deck_gyro_dsu_exte.Cemuhook.Answers.{
  Answers, OutBuf, packet_bytes, modify_data_answer_id, data_ref,
}
use steam_deck_gyro_dsu_exte.Cemuhook.Clients.{Client}
use steam_deck_gyro_dsu_exte.Cemuhook.Server.{Datagram, send_packet, broadcast}
use steam_deck_gyro_dsu_exte.Base.{drop}
use steam_deck_gyro_dsu_exte.Cemuhook.Answers.{answer_bytes}
use steam_deck_gyro_dsu_exte.Cemuhook.Answers.Integrity.{
  IsAnswer, modify_data_answer_id-IsAnswer, modify_data_answer_id_content,
}

-- One datagram for each client, in order: to its address, acceptable, with its identifier, and with
-- the common content behind the first 16 bytes.
abbrev pub Delivers : List ℕ → List Client → List Datagram → Type 0
Delivers content [] [] = Unit {0}
Delivers content [] (d ∷ ds) = ⊥
Delivers content (c ∷ cs) [] = ⊥
Delivers content (c ∷ cs) (d ∷ ds) =
    (d.to ≡ c.address)
    × IsAnswer d.payload 100 c.id
    × (drop 16 d.payload ≡ content)
    × Delivers content cs ds

-- The loop sends to every client in the order of the table and to nobody else: each gets one datagram
-- of 100 bytes with a good checksum and its own identifier, and all get the same controller data.
pub broadcast-Delivers :
    (cs : List Client) (a : Answers) (sent : List Datagram)
    → All (λ c. c.id < 2 ^ 32) cs
    → (ds : List Datagram) × ((broadcast (record { size = 100; answer = data_ref }) cs a sent).1
        ≡ sent ++ ds)
      × Delivers (drop 16 (answer_bytes a data_ref)) cs ds
unfolding broadcast send_packet
broadcast-Delivers [] a sent small = ([], sym (append-nil sent), tt)
broadcast-Delivers (c ∷ cs) a sent small =
    let a' = modify_data_answer_id c.id a in
    let out : OutBuf = record { size = 100; answer = data_ref } in
    let d : Datagram = record { to = c.address; payload = packet_bytes a' out } in
    let (ds, all, delivered) = broadcast-Delivers cs a' (sent ++ d ∷ []) small.1 in
    let (identified, content) = modify_data_answer_id-IsAnswer c.id a small.0 in
    (
      d ∷ ds,
      all ∙ append_assoc sent (d ∷ []) ds,
      (
        refl,
        identified,
        content,
        subst (λ b. Delivers b cs ds) (modify_data_answer_id_content c.id a) delivered,
      ),
    )
