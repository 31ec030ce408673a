-- ===== src/Database/Owners.antt =====
-- Whose deployment a ledger entry moved money to.
use asset_repayment_service.Prelude.{
  ℕ, suc, ◌<◌, ◌≡◌, ◌≢◌, refl, All, true, inl, inr, some, List, [], ◌∷◌, ◌==◌, arith, subst,
  if◌then◌else◌, Bool-cases,
}
use asset_repayment_service.Prelude.Text.{Str, trim_space}
use asset_repayment_service.Money.Decimal.{Decimal}
use asset_repayment_service.Deployment.Clock.{Time}
use asset_repayment_service.Deployment.Contracts.{CreateInput}
use asset_repayment_service.Payment.Entity.{applied, ApplyInput, RecordInput}
use asset_repayment_service.Database.Rows.{DeploymentModel, PaymentModel}
use asset_repayment_service.Database.Tables.{Db, find_deployment, update_deployment}
use asset_repayment_service.Database.Statements.{
  apply_statement, record_statement, create_statement, created_row, move_row, applied_entry,
  recorded_entry, best_deployment,
}
use asset_repayment_service.Database.Consistency.{is_applied}
use asset_repayment_service.Database.Consistency.Inversion.{
  moved_row, apply_statement-cases, record_statement-cases, create_statement-cases,
}
use asset_repayment_service.Database.Consistency.Parts.{is_applied_iff}
use asset_repayment_service.Database.Consistency.Preserve.{find_deployment-id}

module _ {A : Type 0} where
  -- The numbers of the deployments descend from below `n`, the newest first.
  abbrev pub IsDescending : ℕ → List (DeploymentModel A) → Type 0
  IsDescending n [] = Unit
  IsDescending n (x ∷ xs) = (x.id < n) × IsDescending x.id xs

  -- The deployment of a number is the customer's.
  pub record Owns (xs : List (DeploymentModel A)) (id : ℕ) (c : Str) : Type 0 where
    pub x : DeploymentModel A
    pub found : find_deployment id xs ≡ some x
    pub own : x.customer_id ≡ c

  -- An entry that moved money did so for the customer that it names.
  abbrev pub IsRightful : List (DeploymentModel A) → PaymentModel A → Type 0
  IsRightful xs p =
      (id : ℕ)
      → is_applied p.outcome ≡ true
      → p.deployment_id ≡ some id
      → Owns xs id (trim_space p.customer_id)

  pub record IsOwned (db : Db A) : Type 0 where
    pub ids : IsDescending db.next_id db.deployments
    pub entries : All (IsRightful db.deployments) db.payments

  -- Who owns what stays.
  abbrev pub KeepsOwners : Db A → Db A → Type 0
  KeepsOwners a b = (id : ℕ) (c : Str) → Owns a.deployments id c → Owns b.deployments id c

  -- The tables stay in order, and so do the owners.
  abbrev pub IsFair : Db A → Db A → Type 0
  IsFair a b = IsOwned b × KeepsOwners a b

  pub same-IsFair : (a b : Db A) → b ≡ a → IsOwned a → IsFair a b
  same-IsFair a b same sound = rw same (sound, λ id c owner. owner)

  find_deployment-below :
      (n id : ℕ) (xs : List (DeploymentModel A)) (x : DeploymentModel A)
      → IsDescending n xs
      → find_deployment id xs ≡ some x
      → id < n
  unfolding find_deployment
  find_deployment-below n id [] x sound h = cc
  find_deployment-below n id (y ∷ xs) x (below, rest) h =
      ground (arith, find_deployment-below y.id id xs x rest)

  All-IsRightful :
      (xs ys : List (DeploymentModel A)) (ps : List (PaymentModel A))
      → ((id : ℕ) (c : Str) → Owns xs id c → Owns ys id c)
      → All (IsRightful xs) ps
      → All (IsRightful ys) ps
  All-IsRightful xs ys [] keeps h = tt
  All-IsRightful xs ys (p ∷ ps) keeps (first, rest) = (
    λ id moved_money linked. keeps id (trim_space p.customer_id) (first id moved_money linked),
    All-IsRightful xs ys ps keeps rest,
  )

  IsDescending-update :
      (n key : ℕ) (change : DeploymentModel A → DeploymentModel A) (xs : List (DeploymentModel A))
      → ((x : DeploymentModel A) → (change x).id ≡ x.id)
      → IsDescending n xs
      → IsDescending n (update_deployment key change xs)
  unfolding update_deployment
  IsDescending-update n key change [] same h = tt
  IsDescending-update n key change (x ∷ xs) same (below, rest) =
      let tail = IsDescending-update x.id key change xs same rest in
      elim (Bool-cases (x.id == key)) [
        | inl hit ↦ rw (hit, update_deployment) (rw (same x) (below, tail))
        | inr other ↦ rw (other, update_deployment) (below, tail)
      ]

  IsDescending-suc :
      (n : ℕ) (xs : List (DeploymentModel A)) → IsDescending n xs → IsDescending (suc n) xs
  IsDescending-suc n [] sound = tt
  IsDescending-suc n (x ∷ xs) (below, rest) = (omega arith, rest)

  pub find_deployment-update :
      (key id : ℕ) (change : DeploymentModel A → DeploymentModel A) (xs : List (DeploymentModel A))
      (x : DeploymentModel A)
      → ((y : DeploymentModel A) → (change y).id ≡ y.id)
      → find_deployment id xs ≡ some x
      → find_deployment id (update_deployment key change xs)
        ≡ some (if x.id == key then change x else x)
  unfolding update_deployment find_deployment
  find_deployment-update key id change [] x same h = cc
  find_deployment-update key id change (y ∷ xs) x same h =
      ground (arith, same y, find_deployment-update key id change xs x same)

  pub find_other-update :
      (key other : ℕ) (change : DeploymentModel A → DeploymentModel A)
      (xs : List (DeploymentModel A))
      → ((y : DeploymentModel A) → (change y).id ≡ y.id)
      → other ≢ key
      → find_deployment other (update_deployment key change xs) ≡ find_deployment other xs
  unfolding update_deployment find_deployment
  find_other-update key other change [] same ne = refl
  find_other-update key other change (y ∷ xs) same ne =
      ground (arith, same y, find_other-update key other change xs same ne)

  Owns-update :
      (key : ℕ) (change : DeploymentModel A → DeploymentModel A) (xs : List (DeploymentModel A))
      (id : ℕ) (c : Str)
      → ((x : DeploymentModel A) → (change x).id ≡ x.id)
      → ((x : DeploymentModel A) → (change x).customer_id ≡ x.customer_id)
      → Owns xs id c
      → Owns (update_deployment key change xs) id c
  Owns-update key change xs id c same_id same_owner owner = record {
    x = if owner.x.id == key then change owner.x else owner.x;
    found = find_deployment-update key id change xs owner.x same_id owner.found;
    own = ground (arith, same_owner owner.x, owner.own);
  }

  Owns-below :
      (n id : ℕ) (c : Str) (y : DeploymentModel A) (xs : List (DeploymentModel A))
      → IsDescending n xs
      → n ≡ y.id
      → Owns xs id c
      → Owns (y ∷ xs) id c
  unfolding find_deployment
  Owns-below n id c y xs sound new owner =
      let below = find_deployment-below n id xs owner.x sound owner.found in
      record { x = owner.x; found = ground (arith, owner.found); own = owner.own }

module _ {A : Type 0} ⦃d : Decimal A⦄ where
  -- The row that a customer is routed to is found again by its number.
  best_deployment-found :
      (n : ℕ) (c : Str) (xs : List (DeploymentModel A)) (x : DeploymentModel A)
      → IsDescending n xs
      → best_deployment c xs ≡ some x
      → (find_deployment x.id xs ≡ some x) × (x.id < n)
  unfolding best_deployment find_deployment
  best_deployment-found n c [] x sound h = cc
  best_deployment-found n c (y ∷ xs) x (below, rest) h =
      ground (arith, best_deployment-found y.id c xs x rest)

  pub best_deployment-Owns :
      (n : ℕ) (c : Str) (xs : List (DeploymentModel A)) (x : DeploymentModel A)
      → IsDescending n xs
      → best_deployment c xs ≡ some x
      → x.customer_id ≡ c
      → Owns xs x.id c
  best_deployment-Owns n c xs x sound best own = record {
    x = x;
    found = (best_deployment-found n c xs x sound best).0;
    own = own;
  }

  -- A payment that is applied to a deployment of the customer it names.
  pub apply_statement-IsFair :
      (seen : List (PaymentModel A)) (input : ApplyInput A) (now : Time) (uuid : Str) (db : Db A)
      → Owns db.deployments input.deployment_id (trim_space input.notification.customer_id)
      → IsOwned db
      → IsFair db (apply_statement seen input now uuid db).1
  unfolding move_row applied_entry
  apply_statement-IsFair seen input now uuid db owner sound =
      elim (apply_statement-cases seen input now uuid db) [
        | inl (same, _) ↦ same-IsFair db (apply_statement seen input now uuid db).1 same sound
        | inr (a, _) ↦
            let change = moved_row input now in
            let xs = update_deployment input.deployment_id change db.deployments in
            let keeps : (id : ℕ) (c : Str) → Owns db.deployments id c → Owns xs id c = λ id c o.
              Owns-update input.deployment_id change db.deployments id c (λ x. refl) (λ x. refl)
                o in
            let key = find_deployment-id input.deployment_id db.deployments a.found in
            rw (a.result) (
              record {
                ids =
                    IsDescending-update db.next_id input.deployment_id change db.deployments
                      (λ x. refl) sound.ids;
                entries = (
                  λ id moved_money linked.
                      let path : input.deployment_id ≡ id = cc in
                      let c = trim_space input.notification.customer_id in
                      subst (λ i. Owns xs i c) path (keeps input.deployment_id c owner),
                  All-IsRightful db.deployments xs db.payments keeps sound.entries,
                );
              },
              keeps,
            )
      ]

  pub record_statement-IsFair :
      (input : RecordInput A) (now : Time) (uuid : Str) (db : Db A)
      → input.outcome ≢ applied
      → IsOwned db
      → IsFair db (record_statement input now uuid db).1
  unfolding recorded_entry
  record_statement-IsFair input now uuid db ne sound =
      elim (record_statement-cases input now uuid db) [
        | inl same ↦ same-IsFair db (record_statement input now uuid db).1 same sound
        | inr new ↦ rw (new.result) (
          record {
            ids = sound.ids;
            entries = (
              λ id moved_money linked. absurd (ne (is_applied_iff input.outcome moved_money)),
              sound.entries,
            );
          },
          λ id c owner. owner,
        )
      ]

  pub create_statement-IsFair :
      (input : CreateInput A) (now : Time) (uuid : Str) (db : Db A)
      → IsOwned db
      → IsFair db (create_statement input now uuid db).1
  unfolding created_row
  create_statement-IsFair input now uuid db sound =
      elim (create_statement-cases input now uuid db) [
        | inl same ↦ rw same (
          record {
            ids = IsDescending-suc db.next_id db.deployments sound.ids;
            entries = sound.entries;
          },
          λ id c owner. owner,
        )
        | inr new ↦
            let y = created_row input now uuid db.next_id in
            let keeps : (id : ℕ) (c : Str)
                → Owns db.deployments id c
                → Owns (y ∷ db.deployments) id c =
              λ id c o. Owns-below db.next_id id c y db.deployments sound.ids refl o in
            rw (new.result) (
              record {
                ids = (omega arith, sound.ids);
                entries =
                    All-IsRightful db.deployments (y ∷ db.deployments) db.payments keeps
                      sound.entries;
              },
              keeps,
            )
      ]
