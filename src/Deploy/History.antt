-- ===== src/Deploy/History.antt =====
-- The deployment history as `record_deployment` leaves it.
use algo_guard.Prelude.{
  ℕ, ◌≤◌, ◌<◌, ◌≡◌, refl, ap, ◌∙◌, Bool, true, false, List, [], ◌∷◌, ◌++◌, String, map, max, arith,
  All, All-mono,
}
use algo_guard.Deploy.Tables.{
  Deployment, Tables, deactivate, new_deployment, record_deployment, largest_id, first_active,
  id_of,
}

abbrev pub if_active : Bool → Deployment → List Deployment → List Deployment
if_active true d rest = d ∷ rest
if_active false d rest = rest

abbrev pub active_rows : List Deployment → List Deployment
active_rows [] = []
active_rows (d ∷ deployments) = if_active d.is_active d (active_rows deployments)

active_rows-deactivated :
    (ds : List Deployment) (d : Deployment)
    → d.is_active ≡ true
    → active_rows (map deactivate ds ++ d ∷ []) ≡ d ∷ []
active_rows-deactivated [] d h = ap (λ b. if_active b d []) h
active_rows-deactivated (x ∷ ds) d h = active_rows-deactivated ds d h

deactivate-kept : (ds : List Deployment) → map deactivate (map deactivate ds) ≡ map deactivate ds
deactivate-kept [] = refl
deactivate-kept (d ∷ ds) = ap (λ es. deactivate d ∷ es) (deactivate-kept ds)

largest_id-All : (ds : List Deployment) → All (λ d. d.deployment_id ≤ largest_id ds) ds
unfolding largest_id
largest_id-All [] = tt
largest_id-All (d ∷ ds) = (
  omega arith,
  All-mono (λ (x : Deployment). x.deployment_id ≤ largest_id ds)
      (λ x. x.deployment_id ≤ max d.deployment_id (largest_id ds)) (λ x h. omega (arith, h)) ds
      (largest_id-All ds),
)

-- What is recorded: the new row is the only active one, behind the rows that were there, which
-- differ at most in being inactive; it names the row that was active, and its id is new.
pub record IsRecorded (path : String) (t t' : Tables) : Type 0 where
  pub row : Deployment
  pub only_active : active_rows t'.deployments ≡ row ∷ []
  pub history : map deactivate t'.deployments ≡ map deactivate t.deployments ++ deactivate row ∷ []
  pub replaces : row.replaced_deployment_id ≡ id_of (first_active t.deployments)
  pub new_id : All (λ (d : Deployment). d.deployment_id < row.deployment_id) t.deployments
  pub never_given : t.last_deployment_id < row.deployment_id
  pub remembered : t'.last_deployment_id ≡ row.deployment_id
  pub path_recorded : row.artifact_path ≡ path

map-append :
    (f : Deployment → Deployment) (xs ys : List Deployment)
    → map f (xs ++ ys) ≡ map f xs ++ map f ys
map-append f [] ys = refl
map-append f (x ∷ xs) ys = ap (λ zs. f x ∷ zs) (map-append f xs ys)

pub record_deployment-IsRecorded :
    (model_id run_id admin : ℕ) (path : String) (now : ℕ) (t : Tables)
    → IsRecorded path t (record_deployment model_id run_id admin path now t)
unfolding record_deployment
record_deployment-IsRecorded model_id run_id admin path now t =
    let row = new_deployment model_id run_id admin path now t in
    record {
      row = row;
      only_active = active_rows-deactivated t.deployments row refl;
      history =
          map-append deactivate (map deactivate t.deployments) (row ∷ [])
          ∙ ap (λ ds. ds ++ deactivate row ∷ []) (deactivate-kept t.deployments);
      replaces = refl;
      new_id =
          All-mono (λ (d : Deployment). d.deployment_id ≤ largest_id t.deployments)
            (λ d. d.deployment_id < row.deployment_id) (λ d h. omega (arith, h)) t.deployments
            (largest_id-All t.deployments);
      never_given = omega arith;
      remembered = refl;
      path_recorded = refl;
    }
